-- ===== src/Sessions/System.antt =====
-- MatchingServer/src as a whole: the one thread of main.cpp runs the handlers of timers, sockets and
-- sessions one at a time, in the order in which the I/O library finds them ready.

pub mod Kept
pub mod Turns
pub mod Rooms
use socket_communication.Common.{◌>>◌, pure, ran, ℕ, Bool, none, some, List, [], ◌∷◌}
use socket_communication.DbPool.{Link}
use socket_communication.AuthService.{External}
use socket_communication.Server.{lock, destroy}
use socket_communication.Sessions.{Handler, on_server}
use socket_communication.Sessions.Requests.{Incoming, read_message}
use socket_communication.Sessions.Handshake.{read_handshake}
use socket_communication.Sessions.Lifecycle.{Signal, Signalled, on_world, change, on_signal}

-- A handler that is run: one of server.cpp; the one of `read_handshake` or of `read_message` of an
-- object, at a time; or the destructor of an object.
pub data Task : Type 0 where
  signals : Signal → Task
  handshakes messages : ℕ → ℕ → Incoming → Task
  destroys : ℕ → Task

-- What a handler meets: the statements that fail, the link to the database, and the task.
pub record Turn : Type 0 where
  pub faults : List Bool
  pub link : Link
  pub task : Task

-- A handler of an object, which the object itself keeps alive.
abbrev pub if_alive : ℕ → Handler → Handler
if_alive s m w = elim (lock s w.server) [ none ↦ ran tt w | some o ↦ m w ]

abbrev pub end_object : ℕ → Handler
end_object s w = elim (lock s w.server) [ none ↦ ran tt w | some o ↦ on_server (destroy s o) w ]

unfoldable pub on_task : External → Task → Signalled
unfolding on_signal read_handshake read_message destroy
on_task x (signals g) = on_signal g
on_task x (handshakes now s i) = on_world (if_alive s (read_handshake x now s i))
on_task x (messages now s i) = on_world (if_alive s (read_message x now s i))
on_task x (destroys s) = on_world (end_object s)

abbrev pub meet : Turn → Signalled
meet e = change (λ p. record p {
  world = record p.world { db = record p.world.db { faults = e.faults; link = e.link } };
})

-- `io_context.run()` of main.cpp: an exception that leaves a handler ends the server.
unfoldable pub run_turns : External → List Turn → Signalled
unfolding on_task
run_turns x [] = pure tt
run_turns x (e ∷ es) = meet e >> on_task x e.task >> run_turns x es
