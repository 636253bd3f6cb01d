-- ===== src/Sessions/Lifecycle/Returns.antt =====
-- MatchingServer/src/core/server.cpp: the handlers that timers and `stop` run do not throw.

use socket_communication.Common.{
  if◌then◌else◌, Ran, ◌>>◌, pure, Ends, Ends-bind, Ends-catching, ran, threw, ℕ, ◌≡◌, sym, subst,
  Bool, true, false, not, ◌||◌, Option, none, some, List, [], ◌∷◌, arith,
}
use socket_communication.Server.{Session, lock}
use socket_communication.Sessions.{World, Handler, handle_error}
use socket_communication.Sessions.Handshake.{check_inactive_sessions}
use socket_communication.Sessions.Broadcasts.{broadcast_ccu, broadcast_ccu-told}
use socket_communication.Sessions.Expiry.{check_inactive_sessions-Expires}
use socket_communication.Sessions.Quiet.{handle_error-Quiet}
use socket_communication.Sessions.Lifecycle.{
  Process, on_world, change, check_sessions, broadcast_interval, schedule_broadcast, end_session,
  end_locked, stop_each,
}

-- A handler that returns.
abbrev pub Returns : Ran World (Unit {0}) → Type 0
Returns = Ends (λ _ _. Unit {0}) (λ _. ⊥)

pub on_world-Ends :
    (Q : Process → Type 0) (m : Handler) (p : Process)
    → Returns (m p.world)
    → ((w : World) → Q (record p { world = w }))
    → Ends (λ _ p'. Q p') (λ _. ⊥) (on_world m p)
on_world-Ends Q m p h k = go (m p.world) h
  where
    go :
        (r : Ran World (Unit {0}))
        → Returns r
        → Ends
            (λ _ p'. Q p')
            (λ _. ⊥)
            (elim r as (λ _. Ran Process (Unit {0})) [
              | ran u w ↦ ran tt (record p { world = w })
              | threw w ↦ threw (record p { world = w })
            ])
    go (ran u w) h = k w
    go (threw w) h = h

pub Returns-of_ran : (r : Ran World (Unit {0})) (w : World) → r ≡ ran tt w → Returns r
Returns-of_ran r w e = subst Returns (sym e) tt

pub check-Returns : (now : ℕ) (w : World) → Returns (check_inactive_sessions now w)
check-Returns now w =
    let (w', e, k) = check_inactive_sessions-Expires now w in Returns-of_ran _ w' e

pub broadcast-Returns : (w : World) → Returns (broadcast_ccu w)
broadcast-Returns w = Returns-of_ran _ _ (broadcast_ccu-told w)

pub ended-Returns : (s : ℕ) (o : Option Session) (w : World) → Returns (end_session s o w)
ended-Returns s none w = tt
ended-Returns s (some o) w =
    let (w', e, k, h) = handle_error-Quiet s w in
    Ends-catching (λ _ _. Unit {0}) (λ _. ⊥) (λ _. ⊥) (handle_error s) (pure tt) w
      (Returns-of_ran _ w' e) (λ v z. absurd z)

pub stop_each-Returns : (m : List (ℕ × ℕ)) (w : World) → Returns (stop_each m w)
unfolding stop_each
stop_each-Returns [] w = tt
stop_each-Returns ((t, s) ∷ m) w =
    Ends-bind (λ _ _. Unit {0}) (λ _. ⊥) (λ _ _. Unit {0}) (end_locked s) (λ _. stop_each m) w
      (ended-Returns s (lock s w.server) w) (λ u v h. stop_each-Returns m v)

guard_passes : (a b : Bool) → a ≡ true → b ≡ true → (not a || not b) ≡ false
guard_passes a b h k = ground (arith, h, k)

module _ (Q : Process → Type 0) (p : Process) where
  pub checks-Ends :
      (now : ℕ)
      → p.running ≡ true
      → p.timeout_check_running ≡ true
      → ((w : World) → Q (record p { world = w; check_timer = some 10 }))
      → Ends (λ _ p'. Q p') (λ _. ⊥) (check_sessions now p)
  unfolding check_sessions
  checks-Ends now r c k =
      subst
        (λ b.
          Ends (λ _ p'. Q p') (λ _. ⊥)
            (if b
              then ran tt p
              else (on_world (check_inactive_sessions now)
                    >> change (λ p. record p { check_timer = some 10 }))
                  p))
        (sym (guard_passes p.running p.timeout_check_running r c))
        (Ends-bind (λ _ p'. Q (record p' { check_timer = some 10 })) (λ _. ⊥) (λ _ p'. Q p')
          (on_world (check_inactive_sessions now))
          (λ _. change (λ p. record p { check_timer = some 10 })) p
          (on_world-Ends (λ p'. Q (record p' { check_timer = some 10 }))
            (check_inactive_sessions now) p (check-Returns now p.world) k)
          (λ u p' h. h))

  pub schedule-Ends :
      p.running ≡ true
      → p.broadcast_running ≡ true
      → Q (record p { broadcast_timer = some broadcast_interval })
      → Ends (λ _ p'. Q p') (λ _. ⊥) (schedule_broadcast p)
  unfolding schedule_broadcast
  schedule-Ends r b k =
      subst
        (λ c.
          Ends (λ _ p'. Q p') (λ _. ⊥)
            (if c
              then ran tt p
              else ran tt (record p { broadcast_timer = some broadcast_interval })))
        (sym (guard_passes p.running p.broadcast_running r b)) k
