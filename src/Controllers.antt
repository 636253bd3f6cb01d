-- ===== src/Controllers.antt =====
-- MatchingServer/src/controller: the three controllers that `init_controllers` of core/server.cpp
-- registers. Each routes on the request's action.

use socket_communication.Common.{
  if◌then◌else◌, ◌==◌, nat_eq, int_eq, bytes_eq, string_eq, Action, ◌>>=◌, pure,
}
use socket_communication.Db.{room_status_eq, game_status_eq, Db}
use socket_communication.Protocol.{Request, Response, get, unknown_action, refused}
use socket_communication.AuthService.{
  External, register_user, login_user, register_check_and_login, update_nick_name,
}
use socket_communication.RoomService.{create_room, join_room, exit_room, list_rooms}
use socket_communication.GameService.{start_game, end_game}

unfoldable pub handle_auth : External → Request → Action Db Response
handle_auth x q = do
  action ← get q.action
  if action == "register"
      then register_user x q
      else if action == "login"
      then login_user x q
      else if action == "SSAFYlogin"
      then register_check_and_login x q
      else if action == "updateNickName"
      then update_nick_name x q
      else pure (refused unknown_action)

unfoldable pub handle_room : Request → Action Db Response
handle_room q = do
  action ← get q.action
  if action == "createRoom"
      then create_room q
      else if action == "joinRoom"
      then join_room q
      else if action == "exitRoom"
      then exit_room q
      else if action == "listRooms"
      then list_rooms
      else pure (refused unknown_action)

unfoldable pub handle_game : Request → Action Db Response
handle_game q = do
  action ← get q.action
  if action == "gameStart"
      then start_game q
      else if action == "gameEnd"
      then end_game q
      else pure (refused unknown_action)
