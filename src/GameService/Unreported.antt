-- ===== src/GameService/Unreported.antt =====
-- `startGame` of MatchingServer/src/service/game_service.cpp on a database that answers.

use mathlib.Core.Logic.{if_pos}
use mathlib.Core.Option.{none-ne-some}
use socket_communication.Common.{
  ℤ, minus_one, pos, ◌==◌, nat_eq, int_eq, bytes_eq, string_eq, update_rows, count_rows, any_row,
  Ran, ◌>>=◌, pure, catching, ran, threw, ℕ, suc, ◌≡◌, refl, ◌∙◌, true, false, not, ◌||◌, none,
  List, [], ◌∷◌, ◌++◌, arith,
}
use socket_communication.Db.{
  Room, Tables, has_room, has_map, room_status_eq, game_status_eq, game_in_progress, in_progress,
  Db, run_work, commit_filled,
}
use socket_communication.Db.Healthy.{
  IsHealthy, quiet, opened, query-quiet, execute-quiet, Answers, run_work-commit_filled,
}
use socket_communication.Protocol.{
  Field, Request, contains, given, exception_met, game_not_created, refused,
}
use socket_communication.GameRepository.{
  GameAnswer, no_game, users_in, insert_game, start_in_room, create_game_body, create_game,
}
use socket_communication.GameService.{start_answer, start_game}

-- The tables with a running game added.
abbrev game_added : ℤ → ℤ → ℕ → Tables → Tables
game_added room map_id now t = record t {
  games =
      t.games
      ++ record {
        game_id = pos t.next_game;
        room = room;
        map_id = map_id;
        status = in_progress;
        started_at = now;
        completed_at = none;
      }
        ∷ [];
  next_game = suc t.next_game;
}

-- The tables after a game has started in a room.
abbrev pub in_game : ℤ → ℤ → ℕ → Tables → Tables
in_game room map_id now t = record (game_added room map_id now t) {
  rooms =
      update_rows (λ r. r.room_id == room) (λ r. record r { status = game_in_progress }) t.rooms;
}

count_some :
    (room : ℤ) (rs : List Room)
    → any_row (λ r. r.room_id == room) rs ≡ true
    → (count_rows (λ r. r.room_id == room) rs == 0) ≡ false
unfolding any_row count_rows
count_some room [] e = cc
count_some room (r ∷ rs) e = ground (arith, count_some room rs)

module _ (db : Db) (room map_id : ℤ) where
  answer : GameAnswer
  answer = record no_game { users = users_in room (in_game room map_id db.link.now db.committed) }

  runs :
      has_room db.committed room ≡ true
      → has_map db.committed map_id ≡ true
      → create_game_body (given room) (given map_id) (opened db)
        ≡ ran
            (commit_filled answer)
            (quiet db.link.now (in_game room map_id db.link.now db.committed))
  unfolding create_game_body has_room answer
  runs r m =
      execute-quiet (insert_game room map_id) _ db.link.now db.committed _
        (pos db.committed.next_game) (rw (r, m) refl)
      ∙ (execute-quiet (start_in_room room) _ db.link.now
            (game_added room map_id db.link.now db.committed) _ _ refl
          ∙ rw (count_some room db.committed.rooms r) (query-quiet (users_in room) _ db.link.now _))

  served :
      (r : Ran Db GameAnswer) (t' : Tables)
      → Answers answer t' r
      → Answers
          (refused game_not_created)
          t'
          (catching ((λ _. r) >>= λ a. pure (start_answer a)) (pure (refused exception_met)) db)
  unfolding answer
  served (ran a db') t' (e, c) =
      let n : a.game_id ≡ minus_one = ground arith in
      (rw (if_pos (int_eq.dec a.game_id minus_one) n) refl, c)
  served (threw db') t' (e, c) = absurd (none-ne-some _ e)

  created_game :
      (room_field map_field : Field ℤ)
      → IsHealthy db
      → room_field ≡ given room
      → map_field ≡ given map_id
      → has_room db.committed room ≡ true
      → has_map db.committed map_id ≡ true
      → Answers answer
          (in_game room map_id db.link.now db.committed)
          (run_work no_game (create_game_body room_field map_field) db)
  created_game room_field map_field h n m r k =
      run_work-commit_filled no_game (create_game_body room_field map_field) db answer _ h
        (rw (n, m) (runs r k))

-- On a database that answers, a request that names a room and a map that exist starts a game: the
-- room is in a game and the game is committed. The answer is an error all the same.
pub start_game_unreported :
    (q : Request) (db : Db) (room map_id : ℤ)
    → IsHealthy db
    → q.room_id ≡ given room
    → q.map_id ≡ given map_id
    → has_room db.committed room ≡ true
    → has_map db.committed map_id ≡ true
    → Answers
        (refused game_not_created)
        (in_game room map_id db.link.now db.committed)
        (start_game q db)
unfolding start_game create_game
start_game_unreported q db room map_id h n m r k =
    rw fields_there
      (served db room map_id _ _ (created_game db room map_id q.room_id q.map_id h n m r k))
  where
    fields_there : (not (contains q.room_id) || not (contains q.map_id)) ≡ false
    fields_there = rw (n, m) refl
