-- ===== src/ThreadClient/Guards/Runs.antt =====
-- A run of boost_Practice/03_Client_Application/MultiThreadAsyncTCPClient.cpp, step by step of its
-- threads.

use socket_communication.Common.{
  if◌then◌else◌, ◌==◌, nat_eq, int_eq, bytes_eq, string_eq, ==_iff, lookup, insert, lookup-insert,
  ℕ, suc, ◌≤◌, ◌≡◌, refl, sym, ap, ◌∙◌, inl, inr, Bool, true, false, ◌&&◌, Option, none, some, List,
  [], ◌∷◌, ◌++◌, arith,
}
use socket_communication.Db.{Text, room_status_eq, game_status_eq}
use socket_communication.ThreadClient.{
  Stage, Session, Place, Client, Job, Move, goto, change, unlock_active, new_session,
  submit_session, decide, report, advance_from, begin_handler, begin_pending, begin_job, is_idle,
  or_same, make, run_moves, connecting, writing, reading, idle, submits, submitted, handles,
  decides, completes, erases, reports, cancels, searches, marks, marked, submit, cancel, complete,
  begins, advances,
}
use socket_communication.TaskClient.{Code}
use socket_communication.ThreadClient.Guards.{
  IsGuarded, holds_active, holds_session, guard_in, guard_of, guard-change,
}
use socket_communication.ThreadClient.Guards.Steps.{
  After, session-Passes, fresh-change, stays, locks_active, unlocks_active, changes, locks_session,
}

pub and_true : (b : Bool) → (b && true) ≡ b
and_true true = refl
and_true false = refl

and_false : (b : Bool) → (b && false) ≡ false
and_false true = refl
and_false false = refl

-- What a step does for a session that is there.
found-After :
    (o : ℕ) (c : Client) (f : Session → Option Client)
    → ((s : Session) → lookup o c.objects ≡ some s → After IsGuarded (f s))
    → After IsGuarded
        (elim (lookup o c.objects) as (λ _. Option Client) [ none ↦ none | some s ↦ f s ])
found-After o c f h = go (lookup o c.objects) refl
  where
    go :
        (r : Option Session)
        → lookup o c.objects ≡ r
        → After IsGuarded (elim r as (λ _. Option Client) [ none ↦ none | some s ↦ f s ])
    go none e = tt
    go (some s) e = h s e

module _ (t : ℕ) (c : Client) (g : IsGuarded c) where
  submitted-IsGuarded :
      (duration id : ℕ)
      → c.threads t ≡ submitted duration id
      → IsGuarded (goto t idle (submit_session duration id c))
  unfolding holds_active holds_session submit_session
  submitted-IsGuarded duration id at =
      unlocks_active t (submitted duration id) c g at idle _ (λ u. refl) refl refl refl
        (λ o. inl (refl, sym (new_guard o)))
        (λ o l.
          lookup-insert c.next_object o (new_session duration id) c.objects
          ∙ rw (later o l) (g.fresh o (omega (arith, l))))
    where
      new_guard :
          (o : ℕ)
          → guard_in (lookup o (insert c.next_object (new_session duration id) c.objects))
            ≡ guard_of o c
      new_guard o =
          guard-change c.next_object o (new_session duration id) c
          ∙ none_there (c.next_object == o) refl
        where
          none_there :
              (b : Bool)
              → (c.next_object == o) ≡ b
              → (if b then none else guard_of o c) ≡ guard_of o c
          none_there true e =
              sym (ap guard_in (g.fresh o (omega (arith, (==_iff c.next_object o).0 e))))
          none_there false e = refl

      later : (o : ℕ) → suc c.next_object ≤ o → (c.next_object == o) ≡ false
      later o l = ground (arith, l)

  decide-IsGuarded :
      (o : ℕ) (s : Session) (st : Stage)
      → c.threads t ≡ decides o st
      → lookup o c.objects ≡ some s
      → IsGuarded (decide t o s st c)
  unfolding holds_active holds_session decide
  decide-IsGuarded o s st at found = go s.was_cancelled
    where
      next : Client
      next = goto t idle (
          change o
            (record s {
              guard = none;
              pending = elim st as (λ _. Option Stage) [
                | connecting ↦ some writing
                | writing ↦ some reading
                | reading ↦ none
              ];
            })
            (record c {
              sent = elim st as (λ _. List (ℕ × Text)) [
                | connecting ↦ c.sent ++ (o, s.request) ∷ []
                | writing ↦ c.sent
                | reading ↦ c.sent
              ];
            }))

      go : (b : Bool) → IsGuarded (if b then goto t (completes o true) c else next)
      go true =
          stays t (decides o st) c g at (completes o true) _ (λ u. refl) refl
            (λ i. sym (and_true (o == i))) refl refl refl
      go false =
          changes t (decides o st) c g at idle o s _ next (λ u. refl) refl refl refl refl found
            (inr (inr ((==_iff o o).1 refl, refl, refl))) (λ i n. n)

  report-IsGuarded :
      (o : ℕ) (s : Session) (locked : Bool)
      → c.threads t ≡ reports o locked
      → lookup o c.objects ≡ some s
      → IsGuarded (report t o s locked c)
  unfolding holds_active holds_session report
  report-IsGuarded o s true at found =
      changes t (reports o true) c g at idle o s (record s { guard = none }) _ (λ u. refl) refl refl
        refl refl found (inr (inr (and_true (o == o) ∙ (==_iff o o).1 refl, refl, refl)))
        (λ i n. and_true (o == i) ∙ n)
  report-IsGuarded o s false at found =
      changes t (reports o false) c g at idle o s s _ (λ u. refl) refl refl refl refl found
        (inl (and_false (o == o), refl)) (λ i n. and_false (o == i))

  advance_from-IsGuarded : (p : Place) → c.threads t ≡ p → After IsGuarded (advance_from t p c)
  unfolding advance_from holds_active holds_session
  advance_from-IsGuarded idle at = tt
  advance_from-IsGuarded (submits duration id) at =
      locks_active t (submits duration id) c g at (submitted duration id) refl (λ o. refl)
  advance_from-IsGuarded (submitted duration id) at = submitted-IsGuarded duration id at
  advance_from-IsGuarded (handles o st) at = found-After o c _ (λ s found.
      locks_session t (handles o st) c g at (decides o st) o s found refl ((==_iff o o).1 refl)
        (λ i n. sym n))
  advance_from-IsGuarded (decides o st) at =
      found-After o c _ (λ s found. decide-IsGuarded o s st at found)
  advance_from-IsGuarded (completes o locked) at =
      locks_active t (completes o locked) c g at (erases o locked) refl (λ i. refl)
  advance_from-IsGuarded (erases o locked) at = found-After o c _ (λ s found.
      unlocks_active t (erases o locked) c g at (reports o locked) _ (λ u. refl) refl refl refl
        (λ i. inl (refl, refl)) g.fresh)
  advance_from-IsGuarded (reports o locked) at =
      found-After o c _ (λ s found. report-IsGuarded o s locked at found)
  advance_from-IsGuarded (cancels id) at =
      locks_active t (cancels id) c g at (searches id) refl (λ o. refl)
  advance_from-IsGuarded (searches id) at = go (lookup id c.active_sessions)
    where
      go :
          (r : Option ℕ)
          → After IsGuarded (elim r as (λ _. Option Client) [
            | none ↦ some (goto t idle (unlock_active c))
            | some o ↦ some (goto t (marks o) c)
          ])
      go none =
          unlocks_active t (searches id) c g at idle _ (λ u. refl) refl refl refl
            (λ i. inl (refl, refl)) g.fresh
      go (some o) =
          stays t (searches id) c g at (marks o) _ (λ u. refl) refl (λ i. refl) refl refl refl
  advance_from-IsGuarded (marks o) at = found-After o c _ (λ s found.
      locks_session t (marks o) c g at (marked o) o s found refl ((==_iff o o).1 refl)
        (λ i n. sym n))
  advance_from-IsGuarded (marked o) at = found-After o c _ (λ s found.
      unlocks_active t (marked o) c g at idle _ (λ u. refl) refl refl refl
        (session-Passes t (marked o) idle o s (record s { was_cancelled = true; guard = none }) c
          found (inr (inr ((==_iff o o).1 refl, refl, refl))) (λ i n. n))
        (fresh-change o s (record s { was_cancelled = true; guard = none }) c g found))

  -- The start of a handler takes no mutex.
  starts :
      (p : Place) (o : ℕ) (s s' : Session)
      → c.threads t ≡ idle
      → lookup o c.objects ≡ some s
      → s.guard ≡ s'.guard
      → holds_active p ≡ false
      → ((i : ℕ) → holds_session i p ≡ false)
      → IsGuarded (goto t p (change o s' c))
  unfolding holds_active holds_session
  starts p o s s' at found same a h =
      changes t idle c g at p o s s' _ (λ u. refl) (sym a) refl refl refl found
        (inl (sym (h o), same)) (λ i n. sym (h i))

  handler-IsGuarded :
      (o : ℕ) (s : Session) (st : Stage) (ec : Option Code) (line : Text)
      → c.threads t ≡ idle
      → lookup o c.objects ≡ some s
      → IsGuarded (begin_handler t o s st ec line c)
  unfolding begin_handler holds_active holds_session
  handler-IsGuarded o s reading none line at found =
      starts (completes o false) o s _ at found refl refl (λ i. and_false (o == i))
  handler-IsGuarded o s reading (some e) line at found =
      starts (completes o false) o s _ at found refl refl (λ i. and_false (o == i))
  handler-IsGuarded o s connecting none line at found =
      starts (completes o false) o s _ at found refl refl (λ i. and_false (o == i))
  handler-IsGuarded o s connecting (some e) line at found =
      starts (handles o connecting) o s _ at found refl refl (λ i. refl)
  handler-IsGuarded o s writing none line at found =
      starts (completes o false) o s _ at found refl refl (λ i. and_false (o == i))
  handler-IsGuarded o s writing (some e) line at found =
      starts (handles o writing) o s _ at found refl refl (λ i. refl)

  begin_job-IsGuarded : (j : Job) → c.threads t ≡ idle → After IsGuarded (begin_job t j c)
  unfolding begin_job holds_active holds_session
  begin_job-IsGuarded (submit duration id) at =
      stays t idle c g at (submits duration id) _ (λ u. refl) refl (λ o. refl) refl refl refl
  begin_job-IsGuarded (cancel id) at =
      stays t idle c g at (cancels id) _ (λ u. refl) refl (λ o. refl) refl refl refl
  begin_job-IsGuarded (complete o ec line) at =
      found-After o c _ (λ s found. pending_done s found s.pending)
    where
      pending_done :
          (s : Session)
          → lookup o c.objects ≡ some s
          → (r : Option Stage) → After IsGuarded (begin_pending t o s r ec line c)
      pending_done s found none = tt
      pending_done s found (some st) = handler-IsGuarded o s st ec line at found

idle_place : (p : Place) → is_idle p ≡ true → p ≡ idle
idle_place p h = ground arith

same-IsGuarded :
    (c : Client) (r : Option Client) → IsGuarded c → After IsGuarded r → IsGuarded (or_same c r)
same-IsGuarded c none g h = g
same-IsGuarded c (some d) g h = h

pub make-IsGuarded : (m : Move) (c : Client) → IsGuarded c → IsGuarded (make m c)
unfolding make
make-IsGuarded (begins t j) c g = go (is_idle (c.threads t)) refl
  where
    go :
        (b : Bool)
        → is_idle (c.threads t) ≡ b
        → IsGuarded (if b then or_same c (begin_job t j c) else c)
    go true e =
        same-IsGuarded c (begin_job t j c) g
          (begin_job-IsGuarded t c g j (idle_place (c.threads t) e))
    go false e = g
make-IsGuarded (advances t) c g =
    same-IsGuarded c (advance_from t (c.threads t) c) g
      (advance_from-IsGuarded t c g (c.threads t) refl)

-- However the steps of the threads are interleaved, whatever they are given to do and whatever
-- operations complete with whatever codes, each mutex is held by the thread, and only by the one, that
-- stands between taking it and giving it back: no branch keeps a mutex or gives back another's.
pub run_moves-IsGuarded : (ms : List Move) (c : Client) → IsGuarded c → IsGuarded (run_moves ms c)
unfolding run_moves
run_moves-IsGuarded [] c g = g
run_moves-IsGuarded (m ∷ ms) c g = run_moves-IsGuarded ms (make m c) (make-IsGuarded m c g)
