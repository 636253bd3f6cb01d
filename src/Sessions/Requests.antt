-- ===== src/Sessions/Requests.antt =====
-- MatchingServer/src/core/session.cpp: what a session does with a message.

use socket_communication.Common.{
  ℤ, if◌then◌else◌, ◌==◌, nat_eq, int_eq, bytes_eq, string_eq, ◌>>=◌, catching, ℕ, String, Bool,
  false, not, ◌||◌, none, some,
}
use socket_communication.Db.{room_status_eq, game_status_eq}
use socket_communication.Protocol.{
  Request, get, given, unknown_action, not_authenticated, not_permitted, bad_request,
}
use socket_communication.AuthService.{External}
use socket_communication.Server.{Server, zero_id, lock, user_of, get_ccu, get_room_capacity}
use socket_communication.Controllers.{handle_auth, handle_room, handle_game}
use socket_communication.Sessions.{
  Handler, send, refuse, ask_server, on_db, handle_error, handle_ping, after_response,
  room_capacity, ccu,
}

-- `request["userId"] = user_id_`.
abbrev pub stamped : ℤ → Request → Request
stamped user q = record q { user_id = given user }

abbrev pub is_auth_action : String → Bool
is_auth_action a = a == "register" || a == "login" || a == "SSAFYlogin" || a == "updateNickName"

abbrev pub is_room_action : String → Bool
is_room_action a = a == "createRoom" || a == "joinRoom" || a == "exitRoom" || a == "listRooms"

abbrev pub is_game_action : String → Bool
is_game_action a = a == "gameStart" || a == "gameEnd"

unfoldable pub auth_request : External → ℕ → Request → Handler
auth_request x s q w =
    let user = user_of s w.server in
    let q' : Request = if user == zero_id then q else stamped user q in
    (on_db (handle_auth x q') >>= after_response s) w

unfoldable pub room_request : ℕ → Request → Handler
room_request s q w =
    let user = user_of s w.server in
    if user == zero_id
    then refuse s not_authenticated w
    else (on_db (handle_room (stamped user q)) >>= after_response s) w

abbrev pub is_mirror_object : ℕ → Server → Bool
is_mirror_object s w = elim (lock s w) [ none ↦ false | some o ↦ o.is_mirror ]

unfoldable pub game_request : ℕ → Request → Handler
game_request s q w =
    let user = user_of s w.server in
    if user == zero_id || not (is_mirror_object s w.server)
    then refuse s not_permitted w
    else (on_db (handle_game (stamped user q)) >>= after_response s) w

-- The chain of tests on the action.
unfoldable pub route : External → ℕ → ℕ → Request → String → Handler
unfolding auth_request room_request game_request
route x now s q a =
    if is_auth_action a
    then auth_request x s q
    else if is_room_action a
    then room_request s q
    else if is_game_action a
    then game_request s q
    else if a == "alivePing"
    then handle_ping now s
    else if a == "logout"
    then handle_error s
    else if a == "roomCapacity"
    then (ask_server (λ w. (w, get_room_capacity w)) >>= λ n. send s (room_capacity n))
    else if a == "CCU"
    then (ask_server (λ w. (w, get_ccu w)) >>= λ n. send s (ccu n))
    else refuse s unknown_action

-- `process_request`. Where the action is no text, the handler of the exception reads it again and
-- throws too.
unfoldable pub process_request : External → ℕ → ℕ → Request → Handler
unfolding route
process_request x now s q = do
  action ← get q.action
  catching (route x now s q action) (refuse s bad_request)

-- What arrives: an error of the socket, bytes that are no JSON, or a request.
pub data Incoming : Type 0 where
  read_error unparsable : Incoming
  parsed : Request → Incoming

-- The handler of `read_message`.
unfoldable pub read_message : External → ℕ → ℕ → Incoming → Handler
unfolding process_request
read_message x now s read_error = handle_error s
read_message x now s unparsable = refuse s bad_request
read_message x now s (parsed q) = catching (process_request x now s q) (refuse s bad_request)
