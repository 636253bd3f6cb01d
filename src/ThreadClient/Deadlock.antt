-- ===== src/ThreadClient/Deadlock.antt =====
-- `cancelRequest` and `onRequestComplete` of
-- boost_Practice/03_Client_Application/MultiThreadAsyncTCPClient.cpp take the two mutexes in opposite
-- orders.

use socket_communication.Common.{
  if◌then◌else◌, ◌==◌, nat_eq, int_eq, bytes_eq, string_eq, Bool-cases, ==_iff, lookup, ℕ, ◌≡◌,
  refl, sym, ap, subst, ◌∙◌, inl, inr, true, false, ◌&&◌, Option, none, some, List, [], ◌∷◌, arith,
}
use socket_communication.Db.{room_status_eq, game_status_eq}
use socket_communication.ThreadClient.{
  Stage, Session, Place, Client, Move, goto, change, lock_session, unlock_active, decide,
  advance_from, begin_job, is_idle, or_same, make, run_moves, idle, decides, completes, erases,
  cancels, searches, marks, marked, cancel, begins, advances,
}
use socket_communication.ThreadClient.Guards.{
  IsGuarded, holds_active, holds_session, is_holder, guard_in, guard_of,
}
use socket_communication.ThreadClient.Guards.Runs.{and_true, make-IsGuarded, run_moves-IsGuarded}
use socket_communication.ThreadClient.Frames.{Leaves, mover, make-Leaves}

-- Thread `a`, a handler of session `o` that holds its guard, waits for the map's; thread `b`, in
-- `cancelRequest`, holds the map's and waits for the session's.
pub record IsStuck (a b o : ℕ) (c : Client) : Type 0 where
  pub completing : c.threads a ≡ completes o true
  pub cancelling : c.threads b ≡ marks o

module _ (a b o : ℕ) (c : Client) (g : IsGuarded c) (k : IsStuck a b o c) where
  active_held : is_holder b c.active_guard ≡ true
  unfolding holds_active
  active_held = sym (g.active b) ∙ ap holds_active k.cancelling

  session_held : is_holder a (guard_of o c) ≡ true
  unfolding holds_session
  session_held = sym (g.sessions a o) ∙ ap (holds_session o) k.completing ∙ own
    where
      own : (o == o && true) ≡ true
      own = and_true (o == o) ∙ (==_iff o o).1 refl

  -- Neither of the two moves.
  a_waits : advance_from a (c.threads a) c ≡ none
  unfolding advance_from
  a_waits = ap (λ p. advance_from a p c) k.completing ∙ go c.active_guard active_held
    where
      go :
          (h : Option ℕ)
          → is_holder b h ≡ true
          → (elim h as (λ _. Option Client) [
            | none ↦ some (goto a (erases o true) (record c { active_guard = some a }))
            | some u ↦ none
          ])
            ≡ none
      go none e = absurd (ground (arith, e))
      go (some u) e = refl

  b_waits : advance_from b (c.threads b) c ≡ none
  unfolding advance_from
  b_waits = ap (λ p. advance_from b p c) k.cancelling ∙ go (lookup o c.objects) session_held
    where
      locked :
          (s : Session) (h : Option ℕ)
          → is_holder a h ≡ true
          → (elim h as (λ _. Option Client) [
            | none ↦ some (goto b (marked o) (change o (record s { guard = some b }) c))
            | some u ↦ none
          ])
            ≡ none
      locked s none e = absurd (ground (arith, e))
      locked s (some u) e = refl

      go :
          (r : Option Session)
          → is_holder a (guard_in r) ≡ true
          → (elim r as (λ _. Option Client) [
            | none ↦ none
            | some s ↦ lock_session b o s (marked o) c
          ])
            ≡ none
      go none e = refl
      go (some s) e = locked s s.guard e

nothing_moves :
    (t : ℕ) (p : Place) (c : Client)
    → c.threads t ≡ p
    → is_idle p ≡ false
    → advance_from t (c.threads t) c ≡ none
    → (m : Move) → mover m ≡ t
    → make m c ≡ c
unfolding make
nothing_moves t p c at busy stuck (begins u j) e =
    ap (λ b. if b then or_same c (begin_job u j c) else c)
      (ap (λ v. is_idle (c.threads v)) e ∙ ap is_idle at ∙ busy)
nothing_moves t p c at busy stuck (advances u) e =
    ap (or_same c) (ap (λ v. advance_from v (c.threads v) c) e ∙ stuck)

-- What a step leaves of it.
abbrev Remains : ℕ → ℕ → ℕ → Client → Client → Type 0
Remains a b o c d = IsStuck a b o d × (d.active_sessions ≡ c.active_sessions)

unmoved : (a b o : ℕ) (c d : Client) → IsStuck a b o c → d ≡ c → Remains a b o c d
unmoved a b o c d k e = (subst (IsStuck a b o) (sym e) k, ap (λ d. d.active_sessions) e)

make-Remains :
    (a b o : ℕ) (m : Move) (c : Client) → IsGuarded c → IsStuck a b o c → Remains a b o c (make m c)
make-Remains a b o m c g k = elim (Bool-cases (mover m == a)) [
  | inl h ↦ unmoved a b o c (make m c) k (
      nothing_moves a (completes o true) c k.completing refl (a_waits a b o c g k) m
        ((==_iff (mover m) a).0 h))
  | inr n ↦ elim (Bool-cases (mover m == b)) [
    | inl h ↦ unmoved a b o c (make m c) k (
        nothing_moves b (marks o) c k.cancelling refl (b_waits a b o c g k) m
          ((==_iff (mover m) b).0 h))
    | inr n' ↦
        let l : Leaves (mover m) (holds_active (c.threads (mover m))) c (make m c) =
          make-Leaves m c in
        (
          record { completing = l.0 a n ∙ k.completing; cancelling = l.0 b n' ∙ k.cancelling },
          l.1 (
              g.active (mover m)
              ∙ not_holder (mover m) n' c.active_guard (active_held a b o c g k)),
        )
  ]
]
  where
    not_holder :
        (t : ℕ) → (t == b) ≡ false → (h : Option ℕ) → is_holder b h ≡ true → is_holder t h ≡ false
    not_holder t n none e = refl
    not_holder t n (some u) e = ground (arith, n, e)

run_moves-Remains :
    (a b o : ℕ) (ms : List Move) (c : Client)
    → IsGuarded c
    → IsStuck a b o c
    → Remains a b o c (run_moves ms c)
unfolding run_moves
run_moves-Remains a b o [] c g k = (k, refl)
run_moves-Remains a b o (m ∷ ms) c g k =
    let (k', e) = make-Remains a b o m c g k in
    let (k'', f) = run_moves-Remains a b o ms (make m c) (make-IsGuarded m c g) k' in (k'', f ∙ e)

-- The steps that lead there: a handler of a cancelled session, behind the session's lock, goes to
-- complete it, and another thread cancels the request again.
abbrev pub second_cancel : ℕ → ℕ → ℕ → List Move
second_cancel a b id = advances a ∷ begins b (cancel id) ∷ advances b ∷ advances b ∷ []

advanced :
    (t : ℕ) (p : Place) (c d : Client)
    → c.threads t ≡ p
    → advance_from t p c ≡ some d
    → make (advances t) c ≡ d
unfolding make
advanced t p c d at e = ap (or_same c) (ap (λ q. advance_from t q c) at ∙ e)

module _ (a b o id : ℕ) (s : Session) (st : Stage) (c : Client) (n : (a == b) ≡ false)
    (at_a : c.threads a ≡ decides o st) (at_b : c.threads b ≡ idle) (free : c.active_guard ≡ none)
    (listed : lookup id c.active_sessions ≡ some o) (found : lookup o c.objects ≡ some s)
    (cancelled : s.was_cancelled ≡ true) where
  abbrev completing_first : Client
  completing_first = goto a (completes o true) c

  abbrev cancelling_then : Client
  cancelling_then = goto b (cancels id) completing_first

  abbrev searching_then : Client
  searching_then = goto b (searches id) (record cancelling_then { active_guard = some b })

  abbrev marking_then : Client
  marking_then = goto b (marks o) searching_then

  first : make (advances a) c ≡ completing_first
  unfolding advance_from decide
  first = advanced a (decides o st) c completing_first at_a (decided ∙ ap some (rw cancelled refl))
    where
      decided : advance_from a (decides o st) c ≡ some (decide a o s st c)
      decided =
          ap
            (λ r. elim r as (λ _. Option Client) [
              | none ↦ none
              | some s ↦ some (decide a o s st c)
            ])
            found

  second : make (begins b (cancel id)) completing_first ≡ cancelling_then
  unfolding make begin_job
  second = rw n (rw at_b refl)

  own : (b == b) ≡ true
  own = (==_iff b b).1 refl

  third : make (advances b) cancelling_then ≡ searching_then
  unfolding advance_from
  third = advanced b (cancels id) cancelling_then searching_then (rw own refl) (rw free refl)

  fourth : make (advances b) searching_then ≡ marking_then
  unfolding advance_from
  fourth = advanced b (searches id) searching_then marking_then (rw own refl) (
      ap
        (λ r. elim r as (λ _. Option Client) [
          | none ↦ some (goto b idle (unlock_active searching_then))
          | some o ↦ some (goto b (marks o) searching_then)
        ])
        listed)

  reached : run_moves (second_cancel a b id) c ≡ marking_then
  unfolding run_moves
  reached =
      ap (λ d. make (advances b) (make (advances b) (make (begins b (cancel id)) d))) first
      ∙ ap (λ d. make (advances b) (make (advances b) d)) second
      ∙ ap (make (advances b)) third
      ∙ fourth

  own_a : (a == a) ≡ true
  own_a = (==_iff a a).1 refl

  flipped : (b == a) ≡ false
  flipped = ground (arith, n)

  stuck : IsStuck a b o marking_then
  stuck = record { completing = rw flipped (rw own_a refl); cancelling = rw own refl }

  -- A request that is in the map and was cancelled, whose session's lock a handler has taken, and that
  -- another thread, which is idle, cancels once more while the map's guard is free: the two threads then
  -- wait for each other, in whatever way all threads go on, and no session enters or leaves the map any
  -- more.
  pub cancel_deadlocks :
      (ms : List Move)
      → IsGuarded c
      → IsStuck a b o (run_moves ms (run_moves (second_cancel a b id) c))
        × ((run_moves ms (run_moves (second_cancel a b id) c)).active_sessions ≡ c.active_sessions)
  cancel_deadlocks ms g =
      let guarded : IsGuarded (run_moves (second_cancel a b id) c) =
        run_moves-IsGuarded (second_cancel a b id) c g in
      let (k, e) =
        run_moves-Remains a b o ms (run_moves (second_cancel a b id) c) guarded
          (subst (IsStuck a b o) (sym reached) stuck) in
      (k, e ∙ ap (λ d. d.active_sessions) reached)
