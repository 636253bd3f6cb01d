-- ===== src/TaskClient.antt =====
-- boost_Practice/03_Client_Application/AsyncTCPClient.cpp: a client that sends requests, each over a
-- connection of its own, and calls back with the answer. A Session is known by a number. The
-- completion of an operation is an event, with its error code, `none` for success. Cancelling a socket
-- makes its operation complete with an error, which is an event of its own.

pub mod Callbacks
use socket_communication.Common.{
  if◌then◌else◌, nat_eq, int_eq, bytes_eq, string_eq, lookup, erase, insert, bytes_of, to_string, ℕ,
  suc, Bool, true, false, Option, none, some, List, [], ◌∷◌, ◌++◌,
}
use socket_communication.Db.{Text, room_status_eq, game_status_eq}

-- The code `operation_aborted`, and any other.
pub data Code : Type 0 where
  operation_aborted : Code
  failure : ℕ → Code

-- The operation of a session that is pending.
pub data Stage : Type 0 where
  connecting writing reading completed : Stage

pub record Session : Type 0 where
  pub id : ℕ
  pub request : Text
  pub response : Text
  pub ec : Option Code
  pub was_cancelled : Bool
  pub stage : Stage

-- A call of the callback, for the session of a number.
pub record Callback : Type 0 where
  pub number : ℕ
  pub request_id : ℕ
  pub response : Text
  pub ec : Option Code

-- The map from request ids to sessions, the sessions, the calls of callbacks, the requests that were
-- written, the latest last, and the next number.
pub record TaskClient : Type 0 where
  pub active_sessions : List (ℕ × ℕ)
  pub sessions : List (ℕ × Session)
  pub calls : List Callback
  pub sent : List (ℕ × Text)
  pub next_session : ℕ

abbrev pub new_client : TaskClient
new_client = record { active_sessions = []; sessions = []; calls = []; sent = []; next_session = 0 }

abbrev pub keep : ℕ → Session → TaskClient → TaskClient
keep n o c = record c { sessions = insert n o c.sessions }

-- `emulateLongComputationOp` up to `async_connect`.
unfoldable pub emulate_long_computation_op : ℕ → ℕ → TaskClient → TaskClient
emulate_long_computation_op duration request_id c = record c {
  active_sessions = insert request_id c.next_session c.active_sessions;
  sessions =
      insert c.next_session
        (record {
          id = request_id;
          request = bytes_of "EMULATE_LONG_CALC_OP " ++ (to_string duration ++ (b'\n' ∷ []));
          response = [];
          ec = none;
          was_cancelled = false;
          stage = connecting;
        })
        c.sessions;
  next_session = suc c.next_session;
}

-- The code that the callback is given.
abbrev pub final_code : Session → Option Code
final_code o = elim o.ec [
  | none ↦ if o.was_cancelled then some operation_aborted else none
  | some e ↦ some e
]

unfoldable pub on_request_complete : ℕ → Session → TaskClient → TaskClient
on_request_complete n o c = record (keep n (record o { stage = completed }) c) {
  active_sessions = erase o.id c.active_sessions;
  calls =
      c.calls
      ++ record { number = n; request_id = o.id; response = o.response; ec = final_code o } ∷ [];
}

-- The tests at the head of the first two handlers, and the operation that follows.
abbrev pub go_on : ℕ → Session → Option Code → TaskClient → TaskClient → TaskClient
go_on n o none next c = on_request_complete n (record o { ec = none }) c
go_on n o (some e) next c = if o.was_cancelled then on_request_complete n o c else next

-- The completion of the pending operation; for a read, with the line that has arrived.
unfoldable pub on_complete : ℕ → Session → Stage → Option Code → Text → TaskClient → TaskClient
unfolding on_request_complete
on_complete n o connecting ec line c =
    go_on n o ec
      (record (keep n (record o { stage = writing }) c) { sent = c.sent ++ (n, o.request) ∷ [] }) c
on_complete n o writing ec line c = go_on n o ec (keep n (record o { stage = reading }) c) c
on_complete n o reading none line c = on_request_complete n (record o { ec = none }) c
on_complete n o reading (some e) line c = on_request_complete n (record o { response = line }) c
on_complete n o completed ec line c = c

abbrev pub mark_cancelled : Option Session → ℕ → TaskClient → TaskClient
mark_cancelled none n c = c
mark_cancelled (some o) n c = keep n (record o { was_cancelled = true }) c

unfoldable pub cancel_request : ℕ → TaskClient → TaskClient
cancel_request request_id c = elim (lookup request_id c.active_sessions) [
  | none ↦ c
  | some n ↦ mark_cancelled (lookup n c.sessions) n c
]

pub data Event : Type 0 where
  issues : ℕ → ℕ → Event
  cancels : ℕ → Event
  completes : ℕ → Option Code → Text → Event

abbrev pub complete_found : Option Session → ℕ → Option Code → Text → TaskClient → TaskClient
complete_found none n ec line c = c
complete_found (some o) n ec line c = on_complete n o o.stage ec line c

unfoldable pub on_event : Event → TaskClient → TaskClient
unfolding emulate_long_computation_op cancel_request on_complete
on_event (issues duration request_id) c = emulate_long_computation_op duration request_id c
on_event (cancels request_id) c = cancel_request request_id c
on_event (completes n ec line) c = complete_found (lookup n c.sessions) n ec line c

unfoldable pub run_client : List Event → TaskClient → TaskClient
unfolding on_event
run_client [] c = c
run_client (e ∷ es) c = run_client es (on_event e c)
