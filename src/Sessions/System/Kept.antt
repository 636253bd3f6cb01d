-- ===== src/Sessions/System/Kept.antt =====
-- What the controllers keep, the whole matching server keeps: MatchingServer/src/core.

use socket_communication.Common.{
  if◌then◌else◌, nat_eq, int_eq, bytes_eq, string_eq, Ran, ◌>>◌, pure, Ends, Ends-bind, ran, threw,
  lookup, erase, ℕ, sym, subst, Bool, true, false, not, ◌||◌, Option, none, some, List, [], ◌∷◌,
}
use socket_communication.Db.{room_status_eq, game_status_eq}
use socket_communication.Server.{Session, lock, inactive_tokens}
use socket_communication.Sessions.{World, Handler, on_server, handle_error}
use socket_communication.Sessions.Handshake.{expire_object, expire_each, check_inactive_sessions}
use socket_communication.Sessions.Broadcasts.{broadcast_ccu, broadcast_ccu-told}
use socket_communication.Sessions.Lifecycle.{
  Process, Socket, Signal, Signalled, on_world, check_sessions, start_session_timeout_check,
  schedule_broadcast, start_broadcast_timer, do_accept, run, add_session, accept_handler,
  end_session, end_locked, stop_each, end_sessions, stop, on_signal, accept_error, peer_gone,
  peer_at, check_fires, broadcast_fires, stops, accepts,
}
use socket_communication.Sessions.Invariants.{
  DbInvariant, Sound, Kept, Safe, bind-Safe, catching-Safe, handle_error-Safe,
}

module _ (I : DbInvariant) where
  abbrev pub Ended : Ran Process (Unit {0}) → Type 0
  Ended = Ends (λ _ p. Sound I p.world) (λ p. Sound I p.world)

  -- A step of the whole server that keeps it, however it ends.
  abbrev pub Stays : Signalled → Type 0
  Stays m = (p : Process) → Sound I p.world → Ended (m p)

  pub bind-Stays : (m n : Signalled) → Stays m → Stays n → Stays (m >> n)
  bind-Stays m n h k p s =
      Ends-bind (λ _ p'. Sound I p'.world) (λ p'. Sound I p'.world) (λ _ p'. Sound I p'.world) m
        (λ _. n) p (h p s) (λ u p' i. k p' i)

  either-Ended :
      (b : Bool) (r r' : Ran Process (Unit {0})) → Ended r → Ended r' → Ended (if b then r else r')
  either-Ended true r r' h k = h
  either-Ended false r r' h k = k

  pub on_world-Stays : (m : Handler) → Safe I m → Stays (on_world m)
  on_world-Stays m h p s = go (m p.world) (h p.world s)
    where
      go :
          (r : Ran World (Unit {0}))
          → Kept I r
          → Ended (elim r as (λ _. Ran Process (Unit {0})) [
            | ran u w ↦ ran tt (record p { world = w })
            | threw w ↦ threw (record p { world = w })
          ])
      go (ran u w) k = k
      go (threw w) k = k

  expire_each-Safe : (ts : List ℕ) → Safe I (expire_each ts)
  unfolding expire_each
  expire_each-Safe [] w c = c
  expire_each-Safe (t ∷ ts) w c = go (expire_each-Safe ts) (lookup t w.server.sessions)
    where
      out : World
      out = record w { server = record w.server { sessions = erase t w.server.sessions } }

      expired : (s : ℕ) (o : Option Session) → Kept I (expire_object s o out)
      expired s none = c
      expired s (some o) = handle_error-Safe I s out c

      then_rest :
          Safe I (expire_each ts)
          → (r : Ran World (Unit {0})) → Kept I r
          → Kept I (elim r as (λ _. Ran World (Unit {0})) [
            | ran u v ↦ expire_each ts v
            | threw v ↦ threw v
          ])
      then_rest h (ran u v) k = h v k
      then_rest h (threw v) k = k

      go :
          Safe I (expire_each ts)
          → (o : Option ℕ)
          → Kept I (elim o as (λ _. Ran World (Unit {0})) [
            | none ↦ expire_each ts w
            | some s ↦ elim (expire_object s (lock s w.server) out) as (λ _. Ran World (Unit {0})) [
              | ran u v ↦ expire_each ts v
              | threw v ↦ threw v
            ]
          ])
      go h none = h w c
      go h (some s) = then_rest h _ (expired s (lock s w.server))

  check-Safe : (now : ℕ) → Safe I (check_inactive_sessions now)
  unfolding check_inactive_sessions
  check-Safe now w = expire_each-Safe (inactive_tokens now w.server w.server.sessions) w

  broadcast-Safe : Safe I broadcast_ccu
  broadcast-Safe w c = subst (Kept I) (sym (broadcast_ccu-told w)) c

  end_locked-Safe : (s : ℕ) → Safe I (end_locked s)
  end_locked-Safe s w c = go (lock s w.server)
    where
      go : (o : Option Session) → Kept I (end_session s o w)
      go none = c
      go (some o) =
          catching-Safe I (handle_error s) (pure tt) (handle_error-Safe I s) (λ v k. k) w c

  stop_each-Safe : (m : List (ℕ × ℕ)) → Safe I (stop_each m)
  unfolding stop_each
  stop_each-Safe [] = λ w c. c
  stop_each-Safe ((t, s) ∷ m) =
      bind-Safe I (end_locked s) (λ _. stop_each m) (end_locked-Safe s) (λ _. stop_each-Safe m)

  check_sessions-Stays : (now : ℕ) → Stays (check_sessions now)
  unfolding check_sessions
  check_sessions-Stays now p c = either-Ended (not p.running || not p.timeout_check_running) _ _ c (
      bind-Stays (on_world (check_inactive_sessions now)) _ (on_world-Stays _ (check-Safe now))
        (λ p k. k) p c)

  schedule-Stays : Stays schedule_broadcast
  unfolding schedule_broadcast
  schedule-Stays p c = either-Ended (not p.running || not p.broadcast_running) _ _ c c

  end_sessions-Stays : Stays end_sessions
  unfolding end_sessions
  end_sessions-Stays p =
      bind-Stays (on_world (stop_each p.world.server.sessions >> clear)) _
        (on_world-Stays _ (
          bind-Safe I (stop_each p.world.server.sessions) (λ _. clear)
            (stop_each-Safe p.world.server.sessions) (λ _ w k. k)))
        (λ p k. k) p
    where
      clear : Handler
      clear = on_server (λ w. record w { sessions = [] })

  stop-Stays : Stays stop
  unfolding stop
  stop-Stays p c = either-Ended (not p.running) _ _ c (end_sessions-Stays _ c)

  start_check-Stays : (now : ℕ) → Stays (start_session_timeout_check now)
  unfolding start_session_timeout_check
  start_check-Stays now p c =
      either-Ended p.timeout_check_running _ _ c
        (check_sessions-Stays now (record p { timeout_check_running = true }) c)

  start_broadcast-Stays : Stays start_broadcast_timer
  unfolding start_broadcast_timer
  start_broadcast-Stays p c =
      either-Ended p.broadcast_running _ _ c
        (schedule-Stays (record p { broadcast_running = true }) c)

  pub run-Stays : (now : ℕ) → Stays (run now)
  unfolding run
  run-Stays now p =
      bind-Stays (start_session_timeout_check now) start_broadcast_timer (start_check-Stays now)
        start_broadcast-Stays (do_accept (record p { running = true }))

  accept-Stays : (now : ℕ) (socket : Socket) → Stays (accept_handler now socket)
  unfolding accept_handler
  accept-Stays now accept_error p c = go p.running
    where
      go : (b : Bool) → Sound I (if b then do_accept p else p).world
      go true = c
      go false = c
  accept-Stays now peer_gone p c = c
  accept-Stays now (peer_at ip) p c = go p.running
    where
      go :
          (b : Bool)
          → Sound I (if b then do_accept (add_session now ip p) else add_session now ip p).world
      go true = c
      go false = c

  pub on_signal-Stays : (g : Signal) → Stays (on_signal g)
  unfolding on_signal
  on_signal-Stays (check_fires now) p c = go p.check_timer
    where
      go :
          (o : Option ℕ)
          → Ended (elim o as (λ _. Ran Process (Unit {0})) [
            | none ↦ ran tt p
            | some k ↦ check_sessions now (record p { check_timer = none })
          ])
      go none = c
      go (some k) = check_sessions-Stays now (record p { check_timer = none }) c
  on_signal-Stays broadcast_fires p c = go p.broadcast_timer
    where
      go :
          (o : Option ℕ)
          → Ended (elim o as (λ _. Ran Process (Unit {0})) [
            | none ↦ ran tt p
            | some k ↦
                (on_world broadcast_ccu >> schedule_broadcast) (record p { broadcast_timer = none })
          ])
      go none = c
      go (some k) =
          bind-Stays (on_world broadcast_ccu) schedule_broadcast
            (on_world-Stays broadcast_ccu broadcast-Safe) schedule-Stays
            (record p { broadcast_timer = none }) c
  on_signal-Stays (accepts now socket) p c =
      either-Ended p.is_accepting _ _
        (accept-Stays now socket (record p { is_accepting = false }) c) c
  on_signal-Stays stops p c = stop-Stays p c
