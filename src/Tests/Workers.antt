-- ===== src/Tests/Workers.antt =====
-- The client with several threads.

use socket_communication.ThreadClient.Threads.{Spawns, constructor_ends_iff}
use socket_communication.Common.{
  if◌then◌else◌, ltb, nat_eq, int_eq, bytes_eq, string_eq, lookup, insert, ◌<◌, ◌≡◌, refl, ◌↔◌,
  true, none, some, List, [], ◌∷◌, arith,
}
use socket_communication.Db.{room_status_eq, game_status_eq}
use socket_communication.ThreadClient.{
  Session, Client, Move, new_client, new_session, run_moves, spawn_threads, connecting, submit,
  cancel, complete, begins, advances,
}
use socket_communication.TaskClient.{operation_aborted}
use socket_communication.ThreadClient.Guards.{IsGuarded, new_client-IsGuarded}
use socket_communication.ThreadClient.Guards.Runs.{run_moves-IsGuarded}
use socket_communication.ThreadClient.Deadlock.{IsStuck, second_cancel, cancel_deadlocks}

constructor_ends_iff_example :
    (Spawns 4 ↔ (4 < 255)) × (spawn_threads 5 4 1 0 ≡ (if ltb 4 255 then some 4 else none))
constructor_ends_iff_example = constructor_ends_iff 4 (ground arith)

-- Thread 9 sends a request and cancels it; thread 0 runs the handler of its connection.
abbrev some_moves : List Move
some_moves =
    begins 9 (submit 10 1)
    ∷ advances 9
    ∷ advances 9
    ∷ begins 9 (cancel 1)
    ∷ advances 9
    ∷ advances 9
    ∷ advances 9
    ∷ advances 9
    ∷ begins 0 (complete 0 (some operation_aborted) [])
    ∷ advances 0
    ∷ []

run_moves-IsGuarded_example : IsGuarded (run_moves some_moves new_client)
run_moves-IsGuarded_example = run_moves-IsGuarded some_moves new_client new_client-IsGuarded

abbrev cancelled_session : Session
cancelled_session = record (new_session 10 1) {
  was_cancelled = true;
  guard = some 0;
  pending = none;
}

abbrev two_busy : Client
two_busy = run_moves some_moves new_client

cancel_deadlocks_example :
    IsStuck 0 9 0 (run_moves (advances 0 ∷ []) (run_moves (second_cancel 0 9 1) two_busy))
    × ((run_moves (advances 0 ∷ []) (run_moves (second_cancel 0 9 1) two_busy)).active_sessions
        ≡ two_busy.active_sessions)
unfolding nat_eq run_moves lookup insert
cancel_deadlocks_example =
    cancel_deadlocks 0 9 0 1 cancelled_session connecting two_busy refl refl refl refl refl refl
      refl (advances 0 ∷ []) (run_moves-IsGuarded some_moves new_client new_client-IsGuarded)
