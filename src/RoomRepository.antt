-- ===== src/RoomRepository.antt =====
-- MatchingServer/src/repository/room_repository.cpp: the methods of RoomRepositoryImpl, each a
-- transaction of Db/Work. The sentinel room id -1 of a refused creation is `none`.

pub mod Creation
pub mod Joining
pub mod Leaving
pub mod Ids
pub mod Capacity
pub mod Listing
pub mod SecondRoom
use socket_communication.Common.{
  ℤ, lt_int, minus_one, pos, if◌then◌else◌, ltb, ◌==◌, ◌!=◌, nat_eq, int_eq, bytes_eq, string_eq,
  where_rows, delete_rows, update_rows, first_row, any_row, Action, ◌>>=◌, ◌>>◌, pure, throw, ran,
  threw, ℕ, zero, suc, Bool, true, false, not, ◌&&◌, ◌||◌, Option, none, some, List, [], ◌∷◌, map,
}
use socket_communication.Db.{
  Room, Tables, Text, has_user, players, is_member, insert_member, room_status_eq, game_status_eq,
  waiting, game_in_progress, terminated, in_progress, completed, Transaction, Close, Db, query,
  execute, run_work, commit, abort,
}

abbrev pub is_open : Room → Bool
is_open r = r.status == waiting || r.status == game_in_progress

-- ORDER BY created_at DESC.
unfoldable pub insert_newest : Room → List Room → List Room
insert_newest r [] = r ∷ []
insert_newest r (s ∷ ss) =
    if ltb r.created_at s.created_at then s ∷ insert_newest r ss else r ∷ s ∷ ss

unfoldable pub newest_first : List Room → List Room
unfolding insert_newest
newest_first [] = []
newest_first (r ∷ rs) = insert_newest r (newest_first rs)

unfoldable pub find_all_open : Action Db (List Room)
unfolding newest_first
find_all_open =
    run_work [] do rows ← query (λ t. newest_first (where_rows is_open t.rooms)); pure (commit rows)

abbrev pub is_terminated : Room → Bool
is_terminated r = r.status == terminated

abbrev pub lower : Room → Option Room → Option Room
lower r none = some r
lower r (some s) = if lt_int s.room_id r.room_id then some s else some r

-- ORDER BY room_id LIMIT 1.
unfoldable pub lowest : List Room → Option Room
lowest [] = none
lowest (r ∷ rs) = lower r (lowest rs)

-- The SET clause that opens a terminated room again.
abbrev pub reopened : ℤ → Text → ℤ → ℕ → Room → Room
reopened host name max_players now r = record r {
  room_name = name;
  host_id = host;
  max_players = max_players;
  status = waiting;
  created_at = now;
}

abbrev pub reopens : ℤ → Room → Bool
reopens id r = r.room_id == id && is_terminated r

-- UPDATE rooms … WHERE room_id = … AND status = 'TERMINATED' RETURNING …: the first row that it
-- returns. The foreign key of `host_id` is checked on a row that changes.
unfoldable pub reopen_room : ℤ → Text → ℤ → ℤ → ℕ → Action Tables (Option Room)
reopen_room host name max_players id now t = elim (first_row (reopens id) t.rooms) [
  | none ↦ ran none t
  | some r ↦
      if has_user t host
      then ran (some (reopened host name max_players now r)) (record t {
        rooms = update_rows (reopens id) (reopened host name max_players now) t.rooms;
      })
      else threw t
]

-- The body of `createRoomWithHost` from the UPDATE on.
unfoldable pub open_for_host : ℤ → Text → ℤ → ℤ → Action Transaction (Close (Option Room))
unfolding reopen_room
open_for_host host name max_players id = do
  row ← execute (reopen_room host name max_players id)
  elim row [
    | none ↦ pure (abort none)
    | some r ↦ do execute (insert_member id host); pure (commit (some r))
  ]

unfoldable pub create_room_body : ℤ → Text → ℤ → Action Transaction (Close (Option Room))
unfolding open_for_host
create_room_body host name max_players = do
  joined ← query (λ t. any_row (λ m. m.user == host) t.room_users)
  if joined then pure (abort none) else do
    free ← query (λ t. lowest (where_rows is_terminated t.rooms))
    elim free [ none ↦ pure (abort none) | some r ↦ open_for_host host name max_players r.room_id ]

unfoldable pub create_room_with_host : ℤ → Text → ℤ → Action Db (Option Room)
unfolding create_room_body
create_room_with_host host name max_players = run_work none (create_room_body host name max_players)

-- `currentPlayers >= maxPlayers`.
abbrev pub is_full : ℤ → ℕ → Bool
is_full max_players current = not (lt_int (pos current) max_players)

-- The body of `addPlayer` from the check of an earlier participation on.
unfoldable pub admit : ℤ → ℤ → Action Transaction (Close Bool)
admit room user = do
  present ← query (λ t. is_member room user t.room_users)
  if present then pure (abort false) else do
    (row, current) ←
        query (λ t. (first_row (λ r. r.room_id == room) t.rooms, players room t.room_users))
    elim row [
      | none ↦ throw
      | some r ↦
          if is_full r.max_players current
          then pure (abort false)
          else do execute (insert_member room user); pure (commit true)
    ]

unfoldable pub add_player_body : ℤ → ℤ → Action Transaction (Close Bool)
unfolding admit
add_player_body room user = do
  row ← query (λ t. first_row (λ r. r.room_id == room) t.rooms)
  elim row [
    | none ↦ pure (abort false)
    | some r ↦ if r.status != waiting then pure (abort false) else admit room user
  ]

unfoldable pub add_player : ℤ → ℤ → Action Db Bool
unfolding add_player_body
add_player room user = run_work false (add_player_body room user)

-- DELETE FROM room_users WHERE user_id = …
unfoldable pub delete_member : ℤ → ℕ → Action Tables (Unit {0})
delete_member user now t =
    ran tt (record t { room_users = delete_rows (λ m. m.user == user) t.room_users })

-- UPDATE rooms SET status = 'TERMINATED' WHERE room_id = …
unfoldable pub terminate_room : ℤ → ℕ → Action Tables (Unit {0})
terminate_room room now t = ran tt (record t {
  rooms = update_rows (λ r. r.room_id == room) (λ r. record r { status = terminated }) t.rooms;
})

-- UPDATE games SET status = 'COMPLETED', … WHERE status = 'IN_PROGRESS' AND room_id = …
unfoldable pub complete_games : ℤ → ℕ → Action Tables (Unit {0})
complete_games room now t = ran tt (record t {
  games =
      update_rows (λ g. g.status == in_progress && g.room == room)
        (λ g. record g { status = completed; completed_at = some now }) t.games;
})

-- The last part of `removePlayer`: a room without players is terminated.
unfoldable pub close_if_empty : ℤ → ℕ → Action Transaction (Close Bool)
unfolding terminate_room complete_games
close_if_empty room zero = do
  execute (terminate_room room)
  execute (complete_games room)
  pure (commit true)
close_if_empty room (suc n) = pure (commit true)

unfoldable pub remove_player_body : ℤ → Action Transaction (Close Bool)
unfolding close_if_empty delete_member
remove_player_body user = do
  row ← query (λ t. first_row (λ m. m.user == user) t.room_users)
  elim row [
    | none ↦ pure (abort false)
    | some m ↦ do
      execute (delete_member user)
      remaining ← query (λ t. players m.room t.room_users)
      close_if_empty m.room remaining
  ]

unfoldable pub remove_player : ℤ → Action Db Bool
unfolding remove_player_body
remove_player user = run_work false (remove_player_body user)

unfoldable pub get_player_count : ℤ → Action Db ℤ
get_player_count room =
    run_work minus_one do n ← query (λ t. players room t.room_users); pure (commit (pos n))

unfoldable pub get_players_in_room : ℤ → Action Db (List ℤ)
get_players_in_room room = run_work [] do
  rows ← query (λ t. where_rows (λ m. m.room == room) t.room_users)
  pure (commit (map (λ m. m.user) rows))
