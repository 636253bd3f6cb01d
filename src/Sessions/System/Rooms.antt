-- ===== src/Sessions/System/Rooms.antt =====
-- The rooms in the database over a run of the whole matching server.

use socket_communication.Common.{Ran, ◌>>◌, final, ran, threw, ℕ, String, List}
use socket_communication.Db.{Tables}
use socket_communication.DbPool.{Link}
use socket_communication.RoomRepository.Capacity.{IsConsistent}
use socket_communication.AuthService.{External}
use socket_communication.AuthService.Consistency.{handle_auth-Steady}
use socket_communication.Sessions.Consistency.{handle_room-Steady, handle_game-Steady}
use socket_communication.Sessions.Lifecycle.{Process, new_process, run}
use socket_communication.Sessions.Invariants.{DbInvariant}
use socket_communication.Sessions.System.{Turn, run_turns}
use socket_communication.Sessions.System.Kept.{Ended}
use socket_communication.Sessions.System.Turns.{system-Ended}

-- Consistent rooms, as the controllers keep them.
rooms : DbInvariant
rooms = record {
  holds = λ db. IsConsistent db.committed;
  on_auth = handle_auth-Steady;
  on_room = handle_room-Steady;
  on_game = handle_game-Steady;
  on_conditions = λ f l db c. c;
}

-- From tables in which room ids are distinct, every room holds at most its max_players and every
-- terminated room holds nobody, a server that starts at a time and then runs any handlers in any
-- order, of timers, sockets, handshakes, messages, destructors and stops, over any failing statements
-- and any link to the database, has such tables again at the end, also where an exception ends it.
pub run_turns-IsConsistent :
    (x : External) (version : String) (t : Tables) (l : Link) (now : ℕ) (es : List Turn)
    → IsConsistent t
    → IsConsistent
        (final ((run now >> run_turns x es) (new_process version t l))).world.db.committed
unfolding new_process rooms
run_turns-IsConsistent x version t l now es c =
    go ((run now >> run_turns x es) (new_process version t l))
      (system-Ended rooms x now es (new_process version t l) c)
  where
    go : (r : Ran Process (Unit {0})) → Ended rooms r → IsConsistent (final r).world.db.committed
    go (ran u p) k = k
    go (threw p) k = k
