-- ===== src/RoomRepository/SecondRoom.antt =====
-- `addPlayer` of MatchingServer/src/repository/room_repository.cpp for a user who is in a room.

use socket_communication.Common.{
  ℤ, ◌==◌, nat_eq, int_eq, bytes_eq, string_eq, any_row, final, returned, ℕ, ◌≡◌, Bool, true, ◌&&◌,
  ◌||◌, some, List, [], ◌∷◌, ◌++◌, arith,
}
use socket_communication.Db.{Tables, is_member, room_status_eq, game_status_eq, Db}
use socket_communication.Db.Healthy.{IsHealthy}
use socket_communication.RoomRepository.{add_player}
use socket_communication.RoomRepository.Joining.{Admits, entered, add_player_admitted}

any_row-added :
    {A : Type 0} (p : A → Bool) (xs : List A) (x : A)
    → any_row p (xs ++ x ∷ []) ≡ (any_row p xs || p x)
unfolding any_row
any_row-added p [] x = ground arith
any_row-added p (y ∷ xs) x = ground (arith, any_row-added p xs x)

is_member-entered :
    (r u room user : ℤ) (now : ℕ) (t : Tables)
    → is_member r u (entered room user now t).room_users
      ≡ (is_member r u t.room_users || (room == r && user == u))
unfolding is_member
is_member-entered r u room user now t = any_row-added _ t.room_users _

-- On a database that answers, a user who is in one room and whom another admits gets into that one
-- too, and stays in the first: `add_player` leaves the user in both.
pub add_player_twice :
    (room other user : ℤ) (db : Db)
    → IsHealthy db
    → Admits room user db.committed
    → is_member other user db.committed.room_users ≡ true
    → (returned (add_player room user db) ≡ some true)
      × (is_member room user (final (add_player room user db)).committed.room_users ≡ true)
      × (is_member other user (final (add_player room user db)).committed.room_users ≡ true)
add_player_twice room other user db h a m =
    let (answer, tables) = add_player_admitted room user db h a in
    let now = db.link.now in
    (
      answer,
      rw (tables, is_member-entered room user room user now db.committed) (ground arith),
      rw (tables, is_member-entered other user room user now db.committed, m) (ground arith),
    )
