-- ===== src/Tests/Games.antt =====
-- The games of the repository and of the service.

use socket_communication.Common.{pos, int_eq, any_row, ◌≡◌, refl, true}
use socket_communication.Db.{has_room, has_map}
use socket_communication.Db.Healthy.{Answers}
use socket_communication.Db.Atomicity.{Atomic}
use socket_communication.GameRepository.Games.{
  Completes, Begins, NoId, create_game-Start, end_game-End,
}
use socket_communication.GameService.Unreported.{in_game, start_game_unreported}
use socket_communication.GameRepository.{create_game, end_game}
use socket_communication.GameService.{start_game}
use socket_communication.Protocol.{game_not_created, refused}
use socket_communication.Tests.{some_tables, some_db, asks}
use socket_communication.Tests.Rooms.{some_db-IsHealthy}

lounge_known : has_room some_tables (pos 1) ≡ true
unfolding has_room any_row int_eq
lounge_known = refl

map_known : has_map some_tables (pos 1) ≡ true
unfolding has_map any_row int_eq
map_known = refl

start_game_unreported_example :
    Answers
      (refused game_not_created)
      (in_game (pos 1) (pos 1) 100 some_tables)
      (start_game asks some_db)
start_game_unreported_example =
    start_game_unreported asks some_db (pos 1) (pos 1) some_db-IsHealthy refl refl lounge_known
      map_known

end_game-End_example :
    Atomic NoId (Completes (pos 1) some_tables) some_tables (end_game (pos 1) some_db)
end_game-End_example = end_game-End (pos 1) some_db

create_game-Start_example :
    Atomic NoId (Begins asks.room_id asks.map_id some_tables) some_tables (create_game asks some_db)
create_game-Start_example = create_game-Start asks some_db
