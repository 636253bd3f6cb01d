-- ===== src/Tests/Tasks.antt =====
-- The client that sends tasks.

use socket_communication.TaskClient.{
  Session, Event, new_client, run_client, operation_aborted, failure, connecting, issues, cancels,
  completes,
}
use socket_communication.TaskClient.Callbacks.{IsNoError, errors_never_reported}
use socket_communication.Common.{All, bytes_of, to_string, false, none, some, List, [], ◌∷◌, ◌++◌}

-- Two requests; the first fails to connect and to write, and the second is cancelled.
abbrev two_tasks : List Event
two_tasks =
    issues 10 1
    ∷ issues 11 2
    ∷ completes 0 (some (failure 111)) []
    ∷ cancels 2
    ∷ completes 1 (some operation_aborted) []
    ∷ completes 0 (some (failure 32)) []
    ∷ completes 0 (some (failure 2)) (bytes_of "x")
    ∷ []

errors_never_reported_example : All IsNoError (run_client two_tasks new_client).calls
errors_never_reported_example = errors_never_reported two_tasks

-- The session of a request as it begins.
abbrev first_session : Session
first_session = record {
  id = 1;
  request = bytes_of "EMULATE_LONG_CALC_OP " ++ (to_string 10 ++ (b'\n' ∷ []));
  response = [];
  ec = none;
  was_cancelled = false;
  stage = connecting;
}
