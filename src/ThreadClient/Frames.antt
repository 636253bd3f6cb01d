-- ===== src/ThreadClient/Frames.antt =====
-- What a step of a thread leaves as it is:
-- boost_Practice/03_Client_Application/MultiThreadAsyncTCPClient.cpp.

use socket_communication.Common.{
  if◌then◌else◌, ◌==◌, nat_eq, int_eq, bytes_eq, string_eq, lookup, ℕ, ◌≡◌, refl, ap, Bool, true,
  false, Option, none, some, List, [], ◌∷◌, ◌++◌, arith,
}
use socket_communication.Db.{Text, room_status_eq, game_status_eq}
use socket_communication.ThreadClient.{
  Stage, Session, Place, Client, Job, Move, goto, change, lock_active, lock_session, unlock_active,
  submit_session, decide, report, advance_from, begin_handler, begin_pending, begin_job, is_idle,
  or_same, make, connecting, writing, reading, idle, submits, submitted, handles, decides,
  completes, erases, reports, cancels, searches, marks, marked, submit, cancel, complete, begins,
  advances,
}
use socket_communication.TaskClient.{Code}
use socket_communication.ThreadClient.Guards.{holds_active}
use socket_communication.ThreadClient.Guards.Steps.{After}

-- What a step of thread `t` leaves: where the others stand, and the map unless it holds the guard.
abbrev pub Leaves : ℕ → Bool → Client → Client → Type 0
Leaves t holds c d =
    ((u : ℕ) → (t == u) ≡ false → d.threads u ≡ c.threads u)
    × (holds ≡ false → d.active_sessions ≡ c.active_sessions)

module _ (t : ℕ) (c : Client) where
  elsewhere :
      (p : Place) (d : Client)
      → d.threads ≡ c.threads
      → (u : ℕ) → (t == u) ≡ false
      → (goto t p d).threads u ≡ c.threads u
  elsewhere p d e u n = rw n (ap (λ f. f u) e)

  found-Leaves :
      (b : Bool) (o : ℕ) (f : Session → Option Client)
      → ((s : Session) → After (Leaves t b c) (f s))
      → After
          (Leaves t b c)
          (elim (lookup o c.objects) as (λ _. Option Client) [ none ↦ none | some s ↦ f s ])
  found-Leaves b o f h = go (lookup o c.objects)
    where
      go :
          (r : Option Session)
          → After (Leaves t b c) (elim r as (λ _. Option Client) [ none ↦ none | some s ↦ f s ])
      go none = tt
      go (some s) = h s

  lock_active-Leaves : (b : Bool) (p : Place) → After (Leaves t b c) (lock_active t p c)
  lock_active-Leaves b p = go c.active_guard
    where
      go :
          (o : Option ℕ)
          → After (Leaves t b c) (elim o as (λ _. Option Client) [
            | none ↦ some (goto t p (record c { active_guard = some t }))
            | some u ↦ none
          ])
      go none = (elsewhere p (record c { active_guard = some t }) refl, λ h. refl)
      go (some u) = tt

  lock_session-Leaves :
      (b : Bool) (o : ℕ) (s : Session) (p : Place) → After (Leaves t b c) (lock_session t o s p c)
  lock_session-Leaves b o s p = go s.guard
    where
      go :
          (h : Option ℕ)
          → After (Leaves t b c) (elim h as (λ _. Option Client) [
            | none ↦ some (goto t p (change o (record s { guard = some t }) c))
            | some u ↦ none
          ])
      go none = (elsewhere p (change o (record s { guard = some t }) c) refl, λ h. refl)
      go (some u) = tt

  decide-Leaves : (b : Bool) (o : ℕ) (s : Session) (st : Stage) → Leaves t b c (decide t o s st c)
  unfolding decide
  decide-Leaves b o s st = go s.was_cancelled
    where
      next : Client
      next = goto t idle (
          change o
            (record s {
              guard = none;
              pending = elim st as (λ _. Option Stage) [
                | connecting ↦ some writing
                | writing ↦ some reading
                | reading ↦ none
              ];
            })
            (record c {
              sent = elim st as (λ _. List (ℕ × Text)) [
                | connecting ↦ c.sent ++ (o, s.request) ∷ []
                | writing ↦ c.sent
                | reading ↦ c.sent
              ];
            }))

      go : (w : Bool) → Leaves t b c (if w then goto t (completes o true) c else next)
      go true = (λ u n. rw n refl, λ h. refl)
      go false = (λ u n. rw n refl, λ h. refl)

  pub advance_from-Leaves : (p : Place) → After (Leaves t (holds_active p) c) (advance_from t p c)
  unfolding advance_from holds_active submit_session report
  advance_from-Leaves idle = tt
  advance_from-Leaves (submits duration id) = lock_active-Leaves _ (submitted duration id)
  advance_from-Leaves (submitted duration id) =
      (elsewhere idle (submit_session duration id c) refl, λ h. ground arith)
  advance_from-Leaves (handles o st) =
      found-Leaves _ o _ (λ s. lock_session-Leaves _ o s (decides o st))
  advance_from-Leaves (decides o st) = found-Leaves _ o _ (λ s. decide-Leaves _ o s st)
  advance_from-Leaves (completes o locked) = lock_active-Leaves _ (erases o locked)
  advance_from-Leaves (erases o locked) =
      found-Leaves _ o _ (λ s. (λ u n. rw n refl, λ h. ground arith))
  advance_from-Leaves (reports o locked) = found-Leaves _ o _ (λ s. (λ u n. rw n refl, λ h. refl))
  advance_from-Leaves (cancels id) = lock_active-Leaves _ (searches id)
  advance_from-Leaves (searches id) = go (lookup id c.active_sessions)
    where
      go :
          (r : Option ℕ)
          → After (Leaves t true c) (elim r as (λ _. Option Client) [
            | none ↦ some (goto t idle (unlock_active c))
            | some o ↦ some (goto t (marks o) c)
          ])
      go none = (elsewhere idle (unlock_active c) refl, λ h. refl)
      go (some o) = (elsewhere (marks o) c refl, λ h. refl)
  advance_from-Leaves (marks o) = found-Leaves _ o _ (λ s. lock_session-Leaves _ o s (marked o))
  advance_from-Leaves (marked o) = found-Leaves _ o _ (λ s. (λ u n. rw n refl, λ h. refl))

  handler-Leaves :
      (b : Bool) (o : ℕ) (s : Session) (st : Stage) (ec : Option Code) (line : Text)
      → Leaves t b c (begin_handler t o s st ec line c)
  unfolding begin_handler
  handler-Leaves b o s reading none line = (λ u n. rw n refl, λ h. refl)
  handler-Leaves b o s reading (some e) line = (λ u n. rw n refl, λ h. refl)
  handler-Leaves b o s connecting none line = (λ u n. rw n refl, λ h. refl)
  handler-Leaves b o s connecting (some e) line = (λ u n. rw n refl, λ h. refl)
  handler-Leaves b o s writing none line = (λ u n. rw n refl, λ h. refl)
  handler-Leaves b o s writing (some e) line = (λ u n. rw n refl, λ h. refl)

  pub begin_job-Leaves : (b : Bool) (j : Job) → After (Leaves t b c) (begin_job t j c)
  unfolding begin_job
  begin_job-Leaves b (submit duration id) = (λ u n. rw n refl, λ h. refl)
  begin_job-Leaves b (cancel id) = (λ u n. rw n refl, λ h. refl)
  begin_job-Leaves b (complete o ec line) = found-Leaves b o _ (λ s. go s s.pending)
    where
      go : (s : Session) (r : Option Stage) → After (Leaves t b c) (begin_pending t o s r ec line c)
      go s none = tt
      go s (some st) = handler-Leaves b o s st ec line

-- The thread of a step.
abbrev pub mover : Move → ℕ
mover (begins t j) = t
mover (advances t) = t

pub make-Leaves :
    (m : Move) (c : Client) → Leaves (mover m) (holds_active (c.threads (mover m))) c (make m c)
unfolding make
make-Leaves (begins t j) c = go (is_idle (c.threads t))
  where
    taken :
        (r : Option Client)
        → After (Leaves t (holds_active (c.threads t)) c) r
        → Leaves t (holds_active (c.threads t)) c (or_same c r)
    taken none h = (λ u n. refl, λ h. refl)
    taken (some d) h = h

    go :
        (b : Bool)
        → Leaves t (holds_active (c.threads t)) c (if b then or_same c (begin_job t j c) else c)
    go true = taken (begin_job t j c) (begin_job-Leaves t c _ j)
    go false = (λ u n. refl, λ h. refl)
make-Leaves (advances t) c =
    taken (advance_from t (c.threads t) c) (advance_from-Leaves t c (c.threads t))
  where
    taken :
        (r : Option Client)
        → After (Leaves t (holds_active (c.threads t)) c) r
        → Leaves t (holds_active (c.threads t)) c (or_same c r)
    taken none h = (λ u n. refl, λ h. refl)
    taken (some d) h = h
