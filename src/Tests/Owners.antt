-- ===== src/Tests/Owners.antt =====
-- The services of the asynchronous server.

use socket_communication.Common.{
  nat_eq, int_eq, bytes_eq, string_eq, lookup, insert, suc, ◌≡◌, refl, false, List, [], ◌∷◌,
}
use socket_communication.Db.{room_status_eq, game_status_eq}
use socket_communication.AsyncServer.{
  Object, Event, service_answer, run_server, no_operation, accepted, finishes, closes_acceptor,
  stops_context,
}
use socket_communication.AsyncServer.Lifetimes.{handlers_run_deleted}

-- A client comes, sends its request and takes the answer.
abbrev some_service_events : List Event
some_service_events =
    accepted false ∷ finishes 0 false ∷ finishes 0 false ∷ closes_acceptor ∷ stops_context ∷ []

-- Deleted three times.
abbrev served_object : Object
served_object = record {
  blocks = 0 ∷ 0 ∷ 0 ∷ [];
  deletions = 3;
  handler_runs = 2;
  runs_deleted = 2;
  operation = no_operation;
  m_response = service_answer;
}

handlers_run_deleted_example :
    (served_object.deletions ≡ suc served_object.handler_runs)
    × (served_object.runs_deleted ≡ served_object.handler_runs)
unfolding lookup run_server insert nat_eq
handlers_run_deleted_example = handlers_run_deleted some_service_events 0 served_object refl
