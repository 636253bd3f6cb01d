-- ===== src/GameRepository/Games.antt =====
-- `createGame` and `endGame` of MatchingServer/src/repository/game_repository.cpp.

use socket_communication.Common.{
  ℤ, minus_one, pos, ◌==◌, nat_eq, int_eq, bytes_eq, string_eq, Bool-cases, Option-cases,
  where_rows, update_rows, first_row, Ran, ran, ℕ, suc, ◌≡◌, refl, sym, ap, subst, ◌∙◌, inl, inr,
  true, none, some, [], ◌∷◌, ◌++◌, map, arith,
}
use socket_communication.Db.{
  Game, Tables, has_room, has_map, room_status_eq, game_status_eq, game_in_progress, in_progress,
  completed, Transaction, Close, Db,
}
use socket_communication.Db.Atomicity.{
  Closes, Atomic, run_work-Atomic, query-Closes, execute-Closes,
}
use socket_communication.Protocol.{Field, Request, given}
use socket_communication.GameRepository.{
  GameAnswer, no_game, users_in, insert_game, start_in_room, create_game_body, create_game,
  complete_game, end_game_body, end_game,
}

-- The committed tables after a game has started in a room.
pub record Start (t t' : Tables) : Type 0 where
  pub room : ℤ
  pub map_id : ℤ
  pub now : ℕ
  pub room_known : has_room t room ≡ true
  pub map_known : has_map t map_id ≡ true
  pub rooms_after :
      t'.rooms
      ≡ update_rows (λ r. r.room_id == room) (λ r. record r { status = game_in_progress }) t.rooms
  pub games_after :
      t'.games
      ≡ t.games
        ++ record {
          game_id = pos t.next_game;
          room = room;
          map_id = map_id;
          status = in_progress;
          started_at = now;
          completed_at = none;
        }
          ∷ []
  pub members_after : t'.room_users ≡ t.room_users

-- The committed tables after a game of this id has ended.
pub record End (game : ℤ) (t t' : Tables) : Type 0 where
  pub row : Game
  pub found : first_row (λ g. g.game_id == game) t.games ≡ some row
  pub now : ℕ
  pub after : t' ≡ record t {
    games =
        update_rows
          (λ g. g.game_id == game)
          (λ g. record g { status = completed; completed_at = some now })
          t.games;
  }

abbrev pub NoId : GameAnswer → Type 0
NoId a = a.game_id ≡ minus_one

-- An answer without the id of the game, after it has ended: it names the game's room and the users who
-- are in it.
pub record Completes (game : ℤ) (t : Tables) (a : GameAnswer) (t' : Tables) : Type 0 where
  pub no_id : NoId a
  pub end : End game t t'
  pub room_told : a.room_id ≡ some end.row.room
  pub users_told :
      a.users ≡ map (λ m. m.user) (where_rows (λ m. m.room == end.row.room) t.room_users)

-- An answer without the id of the game, after one has started in the room and on the map of the request:
-- it names the users who are in the room.
pub record Begins (room_field map_field : Field ℤ) (t : Tables) (a : GameAnswer) (t' : Tables)
    : Type 0 where
  pub no_id : NoId a
  pub start : Start t t'
  pub asked_room : room_field ≡ given start.room
  pub asked_map : map_field ≡ given start.map_id
  pub users_told : a.users ≡ map (λ m. m.user) (where_rows (λ m. m.room == start.room) t.room_users)

insert_game_ran :
    (room map_id : ℤ) (now : ℕ) (t t' : Tables) (g : ℤ)
    → insert_game room map_id now t ≡ ran g t'
    → (has_room t room ≡ true)
      × (has_map t map_id ≡ true)
      × (t' ≡ record t {
        games =
            t.games
            ++ record {
              game_id = pos t.next_game;
              room = room;
              map_id = map_id;
              status = in_progress;
              started_at = now;
              completed_at = none;
            }
              ∷ [];
        next_game = suc t.next_game;
      })
unfolding insert_game
insert_game_ran room map_id now t t' g e = ground arith

module _ (t : Tables) where
  abbrev Starts : Field ℤ → Field ℤ → Ran Transaction (Close GameAnswer) → Type 0
  Starts room_field map_field = Closes NoId (Begins room_field map_field t)

  started :
      (room map_id : ℤ) (now now' : ℕ)
      → has_room t room ≡ true
      → has_map t map_id ≡ true
      → (n : ℕ) (t' : Tables)
      → start_in_room room now' (record t {
        games =
            t.games
            ++ record {
              game_id = pos t.next_game;
              room = room;
              map_id = map_id;
              status = in_progress;
              started_at = now;
              completed_at = none;
            }
              ∷ [];
        next_game = suc t.next_game;
      })
        ≡ ran n t'
      → Begins (given room) (given map_id) t (record no_game { users = users_in room t' }) t'
  unfolding start_in_room users_in
  started room map_id now now' r m n t' i =
      let kept : t'.room_users ≡ t.room_users = ground arith in
      record {
        no_id = refl;
        start = record {
          room = room;
          map_id = map_id;
          now = now;
          room_known = r;
          map_known = m;
          rooms_after = ground arith;
          games_after = ground arith;
          members_after = kept;
        };
        asked_room = refl;
        asked_map = refl;
        users_told = ap (λ ms. map (λ m. m.user) (where_rows (λ m. m.room == room) ms)) kept;
      }

  create_game_body-Starts :
      (room map_id : Field ℤ) (w : Transaction)
      → w.tables ≡ t
      → Starts room map_id (create_game_body room map_id w)
  unfolding create_game_body
  create_game_body-Starts (given room) (given map_id) w e =
      execute-Closes _ _ t (insert_game room map_id) _ w e λ g w' i.
        let (room_known, map_known, after) = insert_game_ran room map_id w.now t w'.tables g i in
        execute-Closes _ _ _ (start_in_room room) _ w' after λ n u i'. elim (Bool-cases (n == 0)) [
          | inl no_row ↦ rw no_row refl
          | inr rows ↦ rw rows (
              query-Closes _ _ u.tables (users_in room) _ u refl λ v same. (
                refl,
                subst
                    (Begins (given room) (given map_id) t
                      (record no_game { users = users_in room u.tables }))
                    (sym same)
                    (started room map_id w.now w'.now room_known map_known n u.tables i'),
              ))
        ]
  create_game_body-Starts (given room) _ w e = tt
  create_game_body-Starts _ _ w e = tt

  abbrev Finishes : ℤ → Ran Transaction (Close GameAnswer) → Type 0
  Finishes game = Closes NoId (Completes game t)

  ended :
      (game : ℤ) (now : ℕ) (t' : Tables) (room : ℤ)
      → complete_game game now t ≡ ran (some room) t'
      → Completes game t (record no_game { users = users_in room t'; room_id = some room }) t'
  unfolding complete_game users_in
  ended game now t' room i = elim (Option-cases (first_row (λ g. g.game_id == game) t.games)) [
    | inl nothing ↦ absurd (ground arith)
    | inr (row, f) ↦
        let same_room : room ≡ row.room = ground arith in
        let after : t' ≡ record t {
          games =
              update_rows (λ g. g.game_id == game)
                (λ g. record g { status = completed; completed_at = some now }) t.games;
        } =
          ground arith in
        record {
          no_id = refl;
          end = record { row = row; found = f; now = now; after = after };
          room_told = ap some same_room;
          users_told =
              ap (users_in room) after
              ∙ ap (λ r. map (λ m. m.user) (where_rows (λ m. m.room == r) t.room_users)) same_room;
        }
  ]

  end_game_body-Finishes :
      (game : ℤ) (w : Transaction) → w.tables ≡ t → Finishes game (end_game_body game w)
  unfolding end_game_body
  end_game_body-Finishes game w e = execute-Closes _ _ t (complete_game game) _ w e (elim [
    | none ↦ λ w' i. refl
    | some room ↦ λ w' i. query-Closes _ _ w'.tables (users_in room) _ w' refl λ v same. (
      refl,
      subst
          (Completes game t
            (record no_game { users = users_in room w'.tables; room_id = some room }))
          (sym same) (ended game w.now w'.tables room i),
    )
  ])

-- Whatever statements fail, the answer of `create_game` carries the id -1; either nothing is
-- committed, or a `Start`: the room and the map of the request exist, the room is in a game, a running
-- game is added, and the answer names the users in the room.
pub create_game-Start :
    (q : Request) (db : Db)
    → Atomic NoId (Begins q.room_id q.map_id db.committed) db.committed (create_game q db)
unfolding create_game
create_game-Start q db =
    run_work-Atomic _ _ no_game (create_game_body q.room_id q.map_id) db refl
      (create_game_body-Starts db.committed q.room_id q.map_id)

-- Whatever statements fail, the answer of `end_game` carries the id -1; either nothing is committed,
-- or an `End`: the games of that id, of which there is one, are completed, and the answer names its room
-- and the users in it.
pub end_game-End :
    (game : ℤ) (db : Db) → Atomic NoId (Completes game db.committed) db.committed (end_game game db)
unfolding end_game
end_game-End game db =
    run_work-Atomic _ _ no_game (end_game_body game) db refl
      (end_game_body-Finishes db.committed game)
