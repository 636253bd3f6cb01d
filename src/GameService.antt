-- ===== src/GameService.antt =====
-- MatchingServer/src/service/game_service.cpp: the methods of GameServiceImpl.

pub mod Games
pub mod Unreported
use socket_communication.Common.{
  ℤ, minus_one, if◌then◌else◌, ◌==◌, nat_eq, int_eq, bytes_eq, string_eq, Action, ◌>>=◌, ◌>>◌, pure,
  throw, catching, not, ◌||◌, none, some,
}
use socket_communication.Db.{room_status_eq, game_status_eq, Db}
use socket_communication.Protocol.{
  Field, Request, Response, contains, get, fields_missing, exception_met, game_not_created,
  game_not_ended, refused, game_started, game_ended,
}
use socket_communication.GameRepository.{GameAnswer, create_game}
use socket_communication.GameRepository

-- The branch on `result["gameId"] == -1` in `startGame`.
abbrev pub start_answer : GameAnswer → Response
start_answer a =
    if a.game_id == minus_one then refused game_not_created else game_started a.game_id a.users

unfoldable pub start_game_checked : Request → Action Db Response
start_game_checked q =
    if not (contains q.room_id) || not (contains q.map_id)
    then pure (refused fields_missing)
    else do result ← create_game q; pure (start_answer result)

unfoldable pub start_game : Request → Action Db Response
unfolding start_game_checked
start_game q = catching (start_game_checked q) (pure (refused exception_met))

-- The same branch in `endGame`; a success reads `result["roomId"]`.
abbrev pub end_answer : GameAnswer → Action Db Response
end_answer a =
    if a.game_id == minus_one
    then pure (refused game_not_ended)
    else elim a.room_id [ none ↦ throw | some room ↦ pure (game_ended room a.users) ]

unfoldable pub end_game_checked : Field ℤ → Action Db Response
end_game_checked game_field =
    if not (contains game_field)
    then pure (refused fields_missing)
    else do game ← get game_field; result ← GameRepository.end_game game; end_answer result

unfoldable pub end_game : Request → Action Db Response
unfolding end_game_checked
end_game q = catching (end_game_checked q.game_id) (pure (refused exception_met))
