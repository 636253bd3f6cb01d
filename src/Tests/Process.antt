-- ===== src/Tests/Process.antt =====
-- The matching server while it runs: timers, broadcasts, expiry and addresses.

use socket_communication.Common.{
  pos, nat_eq, int_eq, bytes_eq, string_eq, ◌>>◌, final, lookup, ◌≡◌, refl, true, false, List, [],
  ◌∷◌,
}
use socket_communication.Db.{room_status_eq, game_status_eq}
use socket_communication.Protocol.{Request, given}
use socket_communication.Tests.{some_tables, up, asks, some_external, some_server, some_world}
use socket_communication.Tests.Rooms.{some_tables-IsConsistent}
use socket_communication.RoomRepository.Capacity.{IsConsistent}
use socket_communication.Server.{inactive_tokens}
use socket_communication.Sessions.{empty_request}
use socket_communication.Sessions.Requests.{read_error, parsed}
use socket_communication.Sessions.Handshake.{check_inactive_sessions}
use socket_communication.Sessions.Expiry.{Expires, check_inactive_sessions-Expires}
use socket_communication.Sessions.Lifecycle.{
  Signal, new_process, run, run_signals, accept_error, peer_at, check_fires, broadcast_fires, stops,
  accepts,
}
use socket_communication.Sessions.Lifecycle.Orderly.{OrderlyUnless, loses_peer, run-IsOrderly}
use socket_communication.Sessions.System.{Turn, run_turns, signals, handshakes, messages, destroys}
use socket_communication.Sessions.System.Rooms.{run_turns-IsConsistent}

-- A start, a socket, both timers, and a stop.
abbrev some_signals : List Signal
some_signals =
    accepts 100 (peer_at (b'7' ∷ []))
    ∷ check_fires 110
    ∷ broadcast_fires
    ∷ accepts 111 accept_error
    ∷ stops
    ∷ []

run-IsOrderly_example :
    OrderlyUnless false ((run 99 >> run_signals some_signals) (new_process "1" some_tables up))
unfolding loses_peer
run-IsOrderly_example = run-IsOrderly "1" some_tables up 99 some_signals

-- At 130 both sessions have been silent for 40 seconds.
check_inactive_sessions-Expires_example :
    Expires 130 some_world (check_inactive_sessions 130 some_world)
check_inactive_sessions-Expires_example = check_inactive_sessions-Expires 130 some_world

both_expire : inactive_tokens 130 some_server some_server.sessions ≡ 0 ∷ 1 ∷ []
unfolding inactive_tokens lookup nat_eq
both_expire = refl

-- Object 1 has the address 8, which is in use.
abbrev says_version : Request
says_version = record empty_request { version = given "1" }

-- A client comes, says its version, logs in, opens a room while a statement fails, and is gone.
abbrev create_request : Request
create_request = record empty_request {
  action = given "createRoom";
  room_name = given (b'r' ∷ []);
  max_players = given (pos 4);
}

abbrev some_turns : List Turn
some_turns =
    record { faults = []; link = up; task = signals (accepts 100 (peer_at (b'7' ∷ []))) }
    ∷ record { faults = []; link = up; task = handshakes 101 0 (parsed says_version) }
    ∷ record { faults = []; link = up; task = messages 102 0 (parsed asks) }
    ∷ record {
      faults = false ∷ true ∷ [];
      link = up;
      task = messages 103 0 (parsed create_request);
    }
    ∷ record { faults = []; link = up; task = messages 104 0 read_error }
    ∷ record { faults = []; link = up; task = destroys 0 }
    ∷ record { faults = []; link = up; task = signals stops }
    ∷ []

run_turns-IsConsistent_example :
    IsConsistent
      (final (
        (run 99 >> run_turns some_external some_turns)
          (new_process "1" some_tables up))).world.db.committed
run_turns-IsConsistent_example =
    run_turns-IsConsistent some_external "1" some_tables up 99 some_turns some_tables-IsConsistent
