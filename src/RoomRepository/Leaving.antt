-- ===== src/RoomRepository/Leaving.antt =====
-- `removePlayer` of MatchingServer/src/repository/room_repository.cpp.

use socket_communication.Common.{
  ℤ, ◌==◌, nat_eq, int_eq, bytes_eq, string_eq, Option-cases, where_rows, delete_rows, update_rows,
  first_row, any_row, Ran, ℕ, zero, suc, ◌≡◌, refl, ◌≢◌, ◌⊎◌, inl, inr, Bool, true, false, not,
  ◌&&◌, some, List, [], ◌∷◌, arith,
}
use socket_communication.Db.{
  Room, Member, Game, Tables, players, room_status_eq, game_status_eq, terminated, in_progress,
  completed, Transaction, Close, Db,
}
use socket_communication.Db.Atomicity.{
  Closes, Atomic, run_work-Atomic, query-Closes, execute-Closes,
}
use socket_communication.RoomRepository.{
  delete_member, terminate_room, complete_games, close_if_empty, remove_player_body, remove_player,
}
use socket_communication.RoomRepository.Joining.{IsRefused}

abbrev pub is_user : ℤ → Member → Bool
is_user user m = m.user == user

abbrev pub without : ℤ → Tables → Tables
without user t = record t { room_users = delete_rows (is_user user) t.room_users }

abbrev pub terminated_room : ℤ → List Room → List Room
terminated_room room = update_rows (λ r. r.room_id == room) (λ r. record r { status = terminated })

abbrev pub completed_games : ℤ → ℕ → List Game → List Game
completed_games room now =
    update_rows (λ g. g.status == in_progress && g.room == room)
      (λ g. record g { status = completed; completed_at = some now })

abbrev pub closed : ℤ → ℕ → Tables → Tables
closed room now t = record t {
  rooms = terminated_room room t.rooms;
  games = completed_games room now t.games;
}

-- A departure: all rows of the user go; if that empties the room of the first of them, the room is
-- terminated and its running games are completed.
pub record Departure (user : ℤ) (t t' : Tables) : Type 0 where
  pub row : Member
  pub found : first_row (is_user user) t.room_users ≡ some row
  pub now : ℕ
  pub after :
      ((players row.room (without user t).room_users ≢ 0) × (t' ≡ without user t))
      ⊎ ((players row.room (without user t).room_users ≡ 0)
          × (t' ≡ closed row.room now (without user t)))

abbrev pub IsDeparture : ℤ → Tables → Bool → Tables → Type 0
IsDeparture user t b t' = (b ≡ true) × Departure user t t'

module _ (user : ℤ) (t : Tables) where
  abbrev Departs : Ran Transaction (Close Bool) → Type 0
  Departs = Closes IsRefused (IsDeparture user t)

  close_if_empty-Departs :
      (row : Member) (n : ℕ)
      → first_row (is_user user) t.room_users ≡ some row
      → players row.room (without user t).room_users ≡ n
      → (w : Transaction) → w.tables ≡ without user t
      → Departs (close_if_empty row.room n w)
  unfolding close_if_empty
  close_if_empty-Departs row zero f e w h =
      execute-Closes _ _ _ (terminate_room row.room) _ w h λ u w' i.
        execute-Closes _ _ w'.tables (complete_games row.room) _ w' refl λ u' w'' i'.
          (refl, record { row = row; found = f; now = w'.now; after = inr (e, ground arith) })
  close_if_empty-Departs row (suc n) f e w h =
      (refl, record { row = row; found = f; now = w.now; after = inl (ground arith, h) })

  remove_player_body-Departs :
      (w : Transaction) → w.tables ≡ t → Departs (remove_player_body user w)
  unfolding remove_player_body
  remove_player_body-Departs w e = query-Closes _ _ t _ _ w e λ w' e'.
      elim (Option-cases (first_row (is_user user) t.room_users)) [
        | inl nowhere ↦ rw nowhere refl
        | inr (row, f) ↦ rw f (
            execute-Closes _ _ t (delete_member user) _ w' e' λ u w'' i.
              query-Closes _ _ (without user t) _ _ w'' (ground arith)
                λ w''' e'''. close_if_empty-Departs row _ f refl w''' e''')
      ]

-- Whatever statements fail, `remove_player` either answers false and leaves the committed tables as
-- they were, or answers true and makes a `Departure`: all rows of the user go, and the room of the
-- first of them is terminated, its running games completed, exactly when nobody is left in it. If
-- it throws, nothing has changed.
pub remove_player-IsDeparture :
    (user : ℤ) (db : Db)
    → Atomic IsRefused (IsDeparture user db.committed) db.committed (remove_player user db)
unfolding remove_player
remove_player-IsDeparture user db =
    run_work-Atomic _ _ false (remove_player_body user) db refl
      (remove_player_body-Departs user db.committed)

-- After a departure the user is in no room.
delete_rows-gone :
    (user : ℤ) (ms : List Member) → any_row (is_user user) (delete_rows (is_user user) ms) ≡ false
unfolding any_row delete_rows
delete_rows-gone user [] = refl
delete_rows-gone user (m ∷ ms) = ground (arith, delete_rows-gone user ms)

-- The rows of everybody else stay, in their order.
delete_rows-others :
    (user : ℤ) (ms : List Member)
    → where_rows (λ m. not (is_user user m)) (delete_rows (is_user user) ms)
      ≡ where_rows (λ m. not (is_user user m)) ms
unfolding where_rows delete_rows
delete_rows-others user [] = refl
delete_rows-others user (m ∷ ms) = ground (arith, delete_rows-others user ms)

-- A departure leaves the user in no room and the memberships of all others as they were.
pub Departure-only :
    (user : ℤ) (t t' : Tables)
    → Departure user t t'
    → (any_row (is_user user) t'.room_users ≡ false)
      × (where_rows (λ m. not (is_user user m)) t'.room_users
          ≡ where_rows (λ m. not (is_user user m)) t.room_users)
Departure-only user t t' d = elim d.after [
  | inl (_, e) ↦ rw e (delete_rows-gone user t.room_users, delete_rows-others user t.room_users)
  | inr (_, e) ↦ rw e (delete_rows-gone user t.room_users, delete_rows-others user t.room_users)
]
