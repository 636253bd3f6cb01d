-- ===== src/Sessions/Lifecycle/Orderly.antt =====
-- MatchingServer/src/core/server.cpp: while the server runs, its timers are armed and it accepts.

use socket_communication.Common.{
  if◌then◌else◌, Ran, ◌>>◌, Ends, Ends-bind, ran, threw, ℕ, String, ◌≡◌, refl, sym, subst, inl, inr,
  Bool, true, false, ◌||◌, none, some, List, [], ◌∷◌, arith,
}
use socket_communication.Db.{Tables}
use socket_communication.DbPool.{Link}
use socket_communication.Sessions.Broadcasts.{broadcast_ccu}
use socket_communication.Sessions.Lifecycle.{
  Process, Socket, Signal, Signalled, on_world, check_sessions, broadcast_interval,
  schedule_broadcast, new_process, run, add_session, accept_handler, on_signal, run_signals,
  accept_error, peer_gone, peer_at, check_fires, broadcast_fires, stops, accepts,
}
use socket_communication.Sessions.Lifecycle.Returns.{
  on_world-Ends, broadcast-Returns, checks-Ends, schedule-Ends,
}
use socket_communication.Sessions.Lifecycle.Order.{
  IsRunning, IsOrderly, Orderly, stop-Orderly, run-Orderly, accept-IsOrderly,
}

-- A signal whose socket has no peer any more.
unfoldable pub is_peer_gone : Signal → Bool
is_peer_gone (accepts now accept_error) = false
is_peer_gone (accepts now peer_gone) = true
is_peer_gone (accepts now (peer_at ip)) = false
is_peer_gone (check_fires now) = false
is_peer_gone broadcast_fires = false
is_peer_gone stops = false

-- A run that leaves an orderly server, or ends by an exception where `b` holds.
abbrev pub OrderlyUnless : Bool → Ran Process (Unit {0}) → Type 0
OrderlyUnless b = Ends (λ _ p. IsOrderly p) (λ _. b ≡ true)

calm : (b : Bool) (r : Ran Process (Unit {0})) → Orderly r → OrderlyUnless b r
calm b (ran u p) h = h
calm b (threw p) h = absurd h

accepted-IsOrderly :
    (now : ℕ) (socket : Socket) (p : Process)
    → IsOrderly p
    → OrderlyUnless
        (is_peer_gone (accepts now socket))
        (accept_handler now socket (record p { is_accepting = false }))
unfolding accept_handler is_peer_gone
accepted-IsOrderly now accept_error p o =
    accept-IsOrderly p o (record p { is_accepting = false }) refl refl refl refl refl
accepted-IsOrderly now peer_gone p o = refl
accepted-IsOrderly now (peer_at ip) p o =
    accept-IsOrderly p o (add_session now ip (record p { is_accepting = false })) refl refl refl
      refl refl

check-Orderly : (now : ℕ) (p : Process) → IsOrderly p → Orderly (on_signal (check_fires now) p)
unfolding on_signal
check-Orderly now p (inl h) =
    subst
      (λ o. Orderly (elim o as (λ _. Ran Process (Unit {0})) [
        | none ↦ ran tt p
        | some k ↦ check_sessions now (record p { check_timer = none })
      ]))
      (sym h.check_armed)
      (checks-Ends IsOrderly (record p { check_timer = none }) now h.runs h.checks
        (λ w. inl (record {
          runs = h.runs;
          checks = h.checks;
          broadcasts = h.broadcasts;
          check_armed = refl;
          broadcast_armed = h.broadcast_armed;
          accepting = h.accepting;
        })))
check-Orderly now p (inr h) =
    subst
      (λ o. Orderly (elim o as (λ _. Ran Process (Unit {0})) [
        | none ↦ ran tt p
        | some k ↦ check_sessions now (record p { check_timer = none })
      ]))
      (sym h.no_check) (inr h)

broadcast-Orderly : (p : Process) → IsOrderly p → Orderly (on_signal broadcast_fires p)
unfolding on_signal
broadcast-Orderly p (inl h) =
    subst
      (λ o. Orderly (elim o as (λ _. Ran Process (Unit {0})) [
        | none ↦ ran tt p
        | some k ↦
            (on_world broadcast_ccu >> schedule_broadcast) (record p { broadcast_timer = none })
      ]))
      (sym h.broadcast_armed)
      (Ends-bind (λ _ p'. IsRunning (record p' { broadcast_timer = some broadcast_interval }))
        (λ _. ⊥) (λ _ p'. IsOrderly p') (on_world broadcast_ccu) (λ _. schedule_broadcast)
        (record p { broadcast_timer = none })
        (on_world-Ends (λ p'. IsRunning (record p' { broadcast_timer = some broadcast_interval }))
          broadcast_ccu (record p { broadcast_timer = none }) (broadcast-Returns p.world)
          (λ w. record {
            runs = h.runs;
            checks = h.checks;
            broadcasts = h.broadcasts;
            check_armed = h.check_armed;
            broadcast_armed = refl;
            accepting = h.accepting;
          }))
        (λ u p' k. schedule-Ends IsOrderly p' k.runs k.broadcasts (inl k)))
broadcast-Orderly p (inr h) =
    subst
      (λ o. Orderly (elim o as (λ _. Ran Process (Unit {0})) [
        | none ↦ ran tt p
        | some k ↦
            (on_world broadcast_ccu >> schedule_broadcast) (record p { broadcast_timer = none })
      ]))
      (sym h.no_broadcast) (inr h)

on_accept-Orderly :
    (now : ℕ) (socket : Socket) (p : Process)
    → IsOrderly p
    → OrderlyUnless (is_peer_gone (accepts now socket)) (on_signal (accepts now socket) p)
unfolding on_signal
on_accept-Orderly now socket p o = go p.is_accepting
  where
    go :
        (b : Bool)
        → OrderlyUnless
            (is_peer_gone (accepts now socket))
            (if b then accept_handler now socket (record p { is_accepting = false }) else ran tt p)
    go true = accepted-IsOrderly now socket p o
    go false = o

on_signal-Orderly :
    (g : Signal) (p : Process) → IsOrderly p → OrderlyUnless (is_peer_gone g) (on_signal g p)
unfolding on_signal
on_signal-Orderly (check_fires now) p o = calm _ _ (check-Orderly now p o)
on_signal-Orderly broadcast_fires p o = calm _ _ (broadcast-Orderly p o)
on_signal-Orderly (accepts now socket) p o = on_accept-Orderly now socket p o
on_signal-Orderly stops p o = calm _ _ (stop-Orderly p o)

chain :
    (b c : Bool) (m n : Signalled) (p : Process)
    → OrderlyUnless b (m p)
    → ((p' : Process) → IsOrderly p' → OrderlyUnless c (n p'))
    → OrderlyUnless (b || c) ((m >> n) p)
chain b c m n p h k =
    Ends-bind (λ _ p'. IsOrderly p') (λ _. (b || c) ≡ true) (λ _ p'. IsOrderly p') m (λ _. n) p
      (widen (m p) (λ e. ground (arith, e)) h)
      (λ u p' i. widen (n p') (λ e. ground (arith, e)) (k p' i))
  where
    widen :
        {d : Bool} (r : Ran Process (Unit {0}))
        → (d ≡ true → (b || c) ≡ true)
        → OrderlyUnless d r
        → OrderlyUnless (b || c) r
    widen (ran u p) f i = i
    widen (threw p) f i = f i

-- Whether some socket's peer was gone when it was accepted.
unfoldable pub loses_peer : List Signal → Bool
unfolding is_peer_gone
loses_peer [] = false
loses_peer (g ∷ gs) = is_peer_gone g || loses_peer gs

run_signals-Orderly :
    (gs : List Signal) (p : Process)
    → IsOrderly p
    → OrderlyUnless (loses_peer gs) (run_signals gs p)
unfolding run_signals loses_peer
run_signals-Orderly [] p o = o
run_signals-Orderly (g ∷ gs) p o =
    let later : (p' : Process) → IsOrderly p' → OrderlyUnless (loses_peer gs) (run_signals gs p') =
      run_signals-Orderly gs in
    chain (is_peer_gone g) (loses_peer gs) (on_signal g) (run_signals gs) p
      (on_signal-Orderly g p o) later

-- From the constructor on, over any database, `run` and then any sequence of timers that fire,
-- sockets that arrive or fail, and stops: an exception leaves a handler only where the peer of some
-- socket was gone when the socket was accepted. Where none does, a server that runs has both timers
-- armed and an accept pending, and one that was stopped has no timer armed.
pub run-IsOrderly :
    (version : String) (t : Tables) (l : Link) (now : ℕ) (gs : List Signal)
    → OrderlyUnless (loses_peer gs) ((run now >> run_signals gs) (new_process version t l))
unfolding new_process
run-IsOrderly version t l now gs =
    chain false (loses_peer gs) (run now) (run_signals gs) (new_process version t l)
      (calm false _ (run-Orderly now (new_process version t l) refl refl)) (run_signals-Orderly gs)
