-- ===== src/GameRepository.antt =====
-- MatchingServer/src/repository/game_repository.cpp: the methods of GameRepositoryImpl. The answer
-- is the JSON object that they build, with its `gameId` of -1 from the start.

pub mod Games
use mathlib.Core.Option
use socket_communication.Common.{
  ℤ, minus_one, pos, if◌then◌else◌, ◌==◌, nat_eq, int_eq, bytes_eq, string_eq, where_rows,
  update_rows, first_row, count_rows, Action, ◌>>=◌, ◌>>◌, pure, ran, threw, ℕ, suc, ◌&&◌, Option,
  none, some, List, [], ◌∷◌, ◌++◌, map,
}
use socket_communication.Db.{
  Tables, has_room, has_map, room_status_eq, game_status_eq, game_in_progress, in_progress,
  completed, Transaction, Close, Db, query, execute, run_work, commit_filled, abort,
}
use socket_communication.Protocol.{Field, Request, get}

pub record GameAnswer : Type 0 where
  pub game_id : ℤ
  pub users : List ℤ
  pub room_id : Option ℤ

abbrev pub no_game : GameAnswer
no_game = record { game_id = minus_one; users = []; room_id = none }

-- SELECT user_id FROM room_users WHERE room_id = …
unfoldable pub users_in : ℤ → Tables → List ℤ
users_in room t = map (λ m. m.user) (where_rows (λ m. m.room == room) t.room_users)

-- INSERT INTO games (room_id, map_id) … RETURNING game_id, with both foreign keys checked.
unfoldable pub insert_game : ℤ → ℤ → ℕ → Action Tables ℤ
insert_game room map_id now t =
    if has_room t room && has_map t map_id
    then ran (pos t.next_game) (record t {
      games =
          t.games
          ++ record {
            game_id = pos t.next_game;
            room = room;
            map_id = map_id;
            status = in_progress;
            started_at = now;
            completed_at = none;
          }
            ∷ [];
      next_game = suc t.next_game;
    })
    else threw t

-- UPDATE rooms SET status = 'GAME_IN_PROGRESS' WHERE room_id = … RETURNING status: how many rows.
unfoldable pub start_in_room : ℤ → ℕ → Action Tables ℕ
start_in_room room now t = ran (count_rows (λ r. r.room_id == room) t.rooms) (record t {
  rooms =
      update_rows (λ r. r.room_id == room) (λ r. record r { status = game_in_progress }) t.rooms;
})

-- `createGame`: the fields are converted inside the `try`. The id that the INSERT returns is logged and does not reach the answer.
unfoldable pub create_game_body : Field ℤ → Field ℤ → Action Transaction (Close GameAnswer)
unfolding insert_game start_in_room
create_game_body room_field map_field = do
  room ← get room_field
  map_id ← get map_field
  game ← execute (insert_game room map_id)
  updated ← execute (start_in_room room)
  if updated == 0
      then pure (abort no_game)
      else do users ← query (users_in room); pure (commit_filled (record no_game { users = users }))

unfoldable pub create_game : Request → Action Db GameAnswer
unfolding create_game_body
create_game q = run_work no_game (create_game_body q.room_id q.map_id)

-- UPDATE games SET status = 'COMPLETED', … WHERE game_id = … RETURNING room_id: the first row's.
unfoldable pub complete_game : ℤ → ℕ → Action Tables (Option ℤ)
complete_game game now t =
    ran (Option.map (λ g. g.room) (first_row (λ g. g.game_id == game) t.games)) (record t {
      games =
          update_rows (λ g. g.game_id == game)
            (λ g. record g { status = completed; completed_at = some now }) t.games;
    })

unfoldable pub end_game_body : ℤ → Action Transaction (Close GameAnswer)
unfolding complete_game
end_game_body game = do
  row ← execute (complete_game game)
  elim row [
    | none ↦ pure (abort no_game)
    | some room ↦ do
      users ← query (users_in room)
      pure (commit_filled (record no_game { users = users; room_id = some room }))
  ]

unfoldable pub end_game : ℤ → Action Db GameAnswer
unfolding end_game_body
end_game game = run_work no_game (end_game_body game)
