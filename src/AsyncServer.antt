-- ===== src/AsyncServer.antt =====
-- boost_Practice/04_Server_Application/AsyncTCPServer.cpp: the services of an asynchronous server, and who
-- owns them. Each `shared_ptr` made from a raw pointer has a control block of its own, whose use count
-- ends in the deletion of the object.

pub mod Lifetimes
use socket_communication.Common.{
  if◌then◌else◌, ltb, ◌==◌, nat_eq, int_eq, bytes_eq, string_eq, length, lookup, insert, bytes_of,
  ℕ, suc, ◌-◌, Bool, true, false, ◌&&◌, none, some, List, [], ◌∷◌, ◌++◌,
}
use socket_communication.Db.{Text, room_status_eq, game_status_eq, waiting}
use socket_communication.GameSocket.Pool.{at, set_at}

-- The operation of a service that is pending, with the control block that its handler holds.
pub data Operation : Type 0 where
  no_operation : Operation
  reads_request sends_response : ℕ → Operation

-- A Service object: the use counts of its control blocks, how often it was deleted, the handlers that
-- have run, and those of them that ran on it after a deletion; what it has been sent, and its answer.
pub record Object : Type 0 where
  pub blocks : List ℕ
  pub deletions : ℕ
  pub handler_runs : ℕ
  pub runs_deleted : ℕ
  pub operation : Operation
  pub m_response : Text

-- `std::make_shared<Service>`.
abbrev pub make_service : Object
make_service = record {
  blocks = 1 ∷ [];
  deletions = 0;
  handler_runs = 0;
  runs_deleted = 0;
  operation = no_operation;
  m_response = [];
}

-- `shared_ptr<Service>(this)`: a new control block, the last one.
abbrev pub adopt : Object → Object
adopt o = record o { blocks = o.blocks ++ 1 ∷ [] }

-- The end of a `shared_ptr` of a control block.
unfoldable pub release : ℕ → Object → Object
unfolding at set_at
release k o = elim (at k o.blocks) [
  | none ↦ o
  | some n ↦ record o {
    blocks = set_at k (n - 1) o.blocks;
    deletions = if n == 1 then suc o.deletions else o.deletions;
  }
]

-- A handler calls a member function.
abbrev pub call_member : Object → Object
call_member o = record o {
  handler_runs = suc o.handler_runs;
  runs_deleted = if ltb 0 o.deletions then suc o.runs_deleted else o.runs_deleted;
}

-- `StartHandling`: `self` moves into the handler of the read.
abbrev pub start_handling : Object → Object
start_handling o = record (adopt o) { operation = reads_request (length o.blocks) }

-- The accept handler: the pointer of `make_shared` ends with the statement.
unfoldable pub accept_service : Object
unfolding release
accept_service = release 0 (start_handling make_service)

abbrev pub service_answer : Text
service_answer = bytes_of "Response" ++ b'\n' ∷ []

-- `onRequestReceived` on the control block `k`, and the end of its handler.
unfoldable pub on_request_received : ℕ → Bool → Object → Object
unfolding release
on_request_received k fails o =
    let called : Object = call_member o in
    if fails
    then release k (record called { operation = no_operation })
    else release k (record (adopt called) {
      m_response = service_answer;
      operation = sends_response (length o.blocks);
    })

-- `onResponseSent`, and the end of its handler.
unfoldable pub on_response_sent : ℕ → Object → Object
unfolding release
on_response_sent k o = release k (record (call_member o) { operation = no_operation })

-- The services by their numbers, whether the acceptor is open, an accept is pending, and the I/O context
-- runs handlers, and the next number.
pub record AsyncServer : Type 0 where
  pub services : List (ℕ × Object)
  pub is_open : Bool
  pub is_accepting : Bool
  pub is_running : Bool
  pub next_service : ℕ

-- `Start`.
abbrev pub start_server : AsyncServer
start_server = record {
  services = [];
  is_open = true;
  is_accepting = true;
  is_running = true;
  next_service = 0;
}

-- What happens: an accept, with or without an error; the end of the pending operation of a service, with
-- or without one; the parts of `Stop`.
pub data Event : Type 0 where
  accepted : Bool → Event
  finishes : ℕ → Bool → Event
  closes_acceptor stops_context : Event

abbrev pub accept_again : AsyncServer → AsyncServer
accept_again s = if s.is_open then record s { is_accepting = true } else s

unfoldable pub on_accept : Bool → AsyncServer → AsyncServer
unfolding accept_service
on_accept fails s =
    let waiting : AsyncServer = record s { is_accepting = false } in
    if fails
    then accept_again waiting
    else accept_again (record waiting {
      services = insert s.next_service accept_service s.services;
      next_service = suc s.next_service;
    })

unfoldable pub complete_operation : Operation → Bool → Object → Object
unfolding on_request_received on_response_sent
complete_operation no_operation fails o = o
complete_operation (reads_request k) fails o = on_request_received k fails o
complete_operation (sends_response k) fails o = on_response_sent k o

unfoldable pub on_completed : ℕ → Bool → AsyncServer → AsyncServer
unfolding complete_operation
on_completed i fails s = elim (lookup i s.services) [
  | none ↦ s
  | some o ↦ record s { services = insert i (complete_operation o.operation fails o) s.services }
]

-- A handler that is not waited for, or that the stopped context does not run, does not happen.
unfoldable pub on_event : Event → AsyncServer → AsyncServer
unfolding on_accept on_completed
on_event (accepted fails) s = if s.is_running && s.is_accepting then on_accept fails s else s
on_event (finishes i fails) s = if s.is_running then on_completed i fails s else s
on_event closes_acceptor s = record s { is_open = false }
on_event stops_context s = record s { is_running = false }

unfoldable pub run_server : List Event → AsyncServer → AsyncServer
unfolding on_event
run_server [] s = s
run_server (e ∷ es) s = run_server es (on_event e s)
