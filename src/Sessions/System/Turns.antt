-- ===== src/Sessions/System/Turns.antt =====
-- Each turn of the matching server keeps what the controllers keep: MatchingServer/src/core.

use socket_communication.Common.{Ran, ◌>>◌, ran, ℕ, Option, none, some, List, [], ◌∷◌}
use socket_communication.AuthService.{External}
use socket_communication.Server.{Session, lock, destroy}
use socket_communication.Sessions.{World, Handler, on_server}
use socket_communication.Sessions.Requests.{read_message}
use socket_communication.Sessions.Handshake.{read_handshake}
use socket_communication.Sessions.Lifecycle.{run}
use socket_communication.Sessions.Invariants.{DbInvariant, Kept, Safe}
use socket_communication.Sessions.Invariants.Handlers.{read_message-Safe, read_handshake-Safe}
use socket_communication.Sessions.System.{
  Task, Turn, if_alive, end_object, on_task, meet, run_turns, signals, handshakes, messages,
  destroys,
}
use socket_communication.Sessions.System.Kept.{
  Stays, bind-Stays, on_world-Stays, run-Stays, on_signal-Stays,
}

module _ (I : DbInvariant) where
  alive-Safe : (s : ℕ) (m : Handler) → Safe I m → Safe I (if_alive s m)
  alive-Safe s m h w c = go (lock s w.server)
    where
      go :
          (o : Option Session)
          → Kept I (elim o as (λ _. Ran World (Unit {0})) [ none ↦ ran tt w | some o ↦ m w ])
      go none = c
      go (some o) = h w c

  end_object-Safe : (s : ℕ) → Safe I (end_object s)
  end_object-Safe s w c = go (lock s w.server)
    where
      go :
          (o : Option Session)
          → Kept I (elim o as (λ _. Ran World (Unit {0})) [
            | none ↦ ran tt w
            | some o ↦ on_server (destroy s o) w
          ])
      go none = c
      go (some o) = c

  on_task-Stays : (x : External) (t : Task) → Stays I (on_task x t)
  unfolding on_task
  on_task-Stays x (signals g) = on_signal-Stays I g
  on_task-Stays x (handshakes now s i) =
      on_world-Stays I _ (alive-Safe s (read_handshake x now s i) (read_handshake-Safe I x now s i))
  on_task-Stays x (messages now s i) =
      on_world-Stays I _ (alive-Safe s (read_message x now s i) (read_message-Safe I x now s i))
  on_task-Stays x (destroys s) = on_world-Stays I _ (end_object-Safe s)

  run_turns-Stays : (x : External) (es : List Turn) → Stays I (run_turns x es)
  unfolding run_turns
  run_turns-Stays x [] = λ p c. c
  run_turns-Stays x (e ∷ es) =
      bind-Stays I (meet e) (on_task x e.task >> run_turns x es)
        (λ p c. I.on_conditions e.faults e.link p.world.db c)
        (bind-Stays I (on_task x e.task) (run_turns x es) (on_task-Stays x e.task)
          (run_turns-Stays x es))

  -- From its start on, whatever turns come, the server keeps what the controllers keep.
  pub system-Ended : (x : External) (now : ℕ) (es : List Turn) → Stays I (run now >> run_turns x es)
  system-Ended x now es =
      bind-Stays I (run now) (run_turns x es) (run-Stays I now) (run_turns-Stays x es)
