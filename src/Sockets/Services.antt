-- ===== src/Sockets/Services.antt =====
-- boost_Practice/04_Server_Application/IterativeSyncTCPServer.cpp and ParallelSyncTCPServer.cpp, and the
-- clients boost_Practice/03_Client_Application/SyncTCPClient.cpp and SyncUDPClient.cpp. `asio::write`
-- writes all or throws; `asio::read_until` reads pieces until there is a whole line, and throws where the
-- peer closes before.

use socket_communication.Common.{
  if◌then◌else◌, ◌!=◌, nat_eq, int_eq, bytes_eq, string_eq, bytes_of, take, to_string, ℕ, zero, suc,
  Bool, true, false, Option, none, some, List, [], ◌∷◌, ◌++◌,
}
use socket_communication.Db.{Text, room_status_eq, game_status_eq}
use socket_communication.ChatServer.{take_line}

unfoldable pub has_line : Text → Bool
unfolding take_line
has_line t = elim (take_line t) [ none ↦ false | some p ↦ true ]

-- `asio::read_until`, with what is in the buffer, over the pieces that the peer's bytes come in.
unfoldable pub read_until : List Text → Text → Option Text
unfolding has_line
read_until [] buf = if has_line buf then some buf else none
read_until (p ∷ ps) buf =
    let later = read_until ps (buf ++ p) in if has_line buf then some buf else later

-- The loop that stands for the work on a request, within `fuel` tests.
unfoldable pub work_loop : ℕ → ℕ → ℕ → Option ℕ
work_loop zero limit i = none
work_loop (suc fuel) limit i =
    let later = work_loop fuel limit (suc i) in if i != limit then later else some i

abbrev pub server_response : Text
server_response = bytes_of "Response" ++ b'\n' ∷ []

-- `HandleClient`, with the pieces that come and whether the answer can be written: what is written,
-- `none` where an exception is caught.
unfoldable pub handle_client : List Text → Bool → Option Text
unfolding read_until work_loop
handle_client pieces writes = elim (read_until pieces []) [
  | none ↦ none
  | some request ↦ elim (work_loop (suc 1000000) 1000000 0) [
    | none ↦ none
    | some i ↦ if writes then some server_response else none
  ]
]

-- A client: the pieces in which its bytes come, and whether it takes the answer.
pub record Peer : Type 0 where
  pub pieces : List Text
  pub takes : Bool

-- Where the thread of `Run` stands: at the test of the loop, in `accept`, behind the loop, or ended by
-- an exception, which leaves the thread's function.
pub data Phase : Type 0 where
  testing accepting left_loop terminated : Phase

pub record SyncServer : Type 0 where
  pub m_stop : Bool
  pub phase : Phase
  pub answers : List (Option Text)

abbrev pub new_server : SyncServer
new_server = record { m_stop = false; phase = testing; answers = [] }

-- `Stop` of another thread, a test of the loop, and the end of an `accept`.
pub data Event : Type 0 where
  stops tests accept_fails : Event
  connects : Peer → Event

unfoldable pub test_stop : SyncServer → SyncServer
test_stop s = record s { phase = if s.m_stop then left_loop else accepting }

-- The rest of `Accept`: the iterative server handles the client there.
unfoldable pub accept_client : Peer → SyncServer → SyncServer
unfolding handle_client
accept_client p s = record s {
  phase = testing;
  answers = s.answers ++ handle_client p.pieces p.takes ∷ [];
}

abbrev pub at_phase : Phase → Event → SyncServer → SyncServer
at_phase testing tests s = test_stop s
at_phase accepting (connects p) s = accept_client p s
at_phase accepting accept_fails s = record s { phase = terminated }
at_phase _ _ s = s

-- An event that the thread does not wait for does not happen.
unfoldable pub on_event : Event → SyncServer → SyncServer
unfolding test_stop accept_client
on_event stops s = record s { m_stop = true }
on_event tests s = at_phase s.phase tests s
on_event accept_fails s = at_phase s.phase accept_fails s
on_event (connects p) s = at_phase s.phase (connects p) s

unfoldable pub run_server : List Event → SyncServer → SyncServer
unfolding on_event
run_server [] s = s
run_server (e ∷ es) s = run_server es (on_event e s)

-- `emulateLongComputationOp` of SyncTCPClient.cpp: what it sends, and what it makes of the answer.
unfoldable pub tcp_request : ℕ → Text
tcp_request duration = bytes_of "EMULATE_LONG_COMP_OP " ++ (to_string duration ++ b'\n' ∷ [])

abbrev pub first_line : Text → Text
first_line t = elim (take_line t) [ none ↦ t | some p ↦ p.0 ]

unfoldable pub receive_response : List Text → Option Text
unfolding read_until take_line
receive_response pieces = elim (read_until pieces []) [ none ↦ none | some t ↦ some (first_line t) ]

-- `receiveResponse` of SyncUDPClient.cpp: a datagram is cut to the 6 bytes of the buffer.
unfoldable pub receive_datagram : Text → Text
receive_datagram d = take 6 d
