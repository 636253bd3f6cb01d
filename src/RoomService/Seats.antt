-- ===== src/RoomService/Seats.antt =====
-- `joinRoom` and `exitRoom` of MatchingServer/src/service/room_service.cpp.

use socket_communication.Common.{
  ℤ, if◌then◌else◌, Ran, ◌>>=◌, pure, Ends, Ends-catching, ran, threw, ◌≡◌, refl, ◌⊎◌, inl, inr,
  Bool,
}
use socket_communication.Db.{Tables, Db}
use socket_communication.Db.Atomicity.{Atomic}
use socket_communication.Protocol.{
  Field, Request, Response, absent, mistyped, given, room_not_joined, not_in_a_room, refused,
  room_joined, room_left,
}
use socket_communication.RoomRepository.Joining.{Joined, IsRefused, IsJoin, add_player-IsJoin}
use socket_communication.RoomRepository.Leaving.{Departure, IsDeparture, remove_player-IsDeparture}
use socket_communication.RoomService.{join_room_checked, join_room, exit_room_checked, exit_room}
use socket_communication.RoomService.Rooms.{Failed, Unchanged, Never}

-- A join that was served.
pub record Entered (q : Request) (t : Tables) (a : Response) (t' : Tables) : Type 0 where
  pub room : ℤ
  pub user : ℤ
  pub roomed : q.room_id ≡ given room
  pub hosted : q.user_id ≡ given user
  pub joined : Joined room user t t'
  pub answer : a ≡ room_joined room

abbrev pub Enters : Request → Tables → Response → Db → Type 0
Enters q t a db = Failed t a db ⊎ Entered q t a db.committed

module _ (q : Request) (db : Db) where
  join_called :
      (room user : ℤ)
      → q.room_id ≡ given room
      → q.user_id ≡ given user
      → (r : Ran Db Bool) → Atomic IsRefused (IsJoin room user db.committed) db.committed r
      → Ends (Enters q db.committed) (Unchanged db.committed) (
          ((λ _. r) >>= λ added. pure (if added then room_joined room else refused room_not_joined))
            db)
  join_called room user n u (threw db') e = e
  join_called room user n u (ran b db') (inl (same, no_join)) = inl (same, rw no_join refl)
  join_called room user n u (ran b db') (inr (done, j)) = inr (record {
    room = room;
    user = user;
    roomed = n;
    hosted = u;
    joined = j;
    answer = rw done refl;
  })

  join_room_checked-Enters :
      (room_field user_field : Field ℤ)
      → q.room_id ≡ room_field
      → q.user_id ≡ user_field
      → Ends
          (Enters q db.committed)
          (Unchanged db.committed)
          (join_room_checked room_field user_field db)
  unfolding join_room_checked
  join_room_checked-Enters absent u _ _ = inl (refl, refl)
  join_room_checked-Enters mistyped absent _ _ = inl (refl, refl)
  join_room_checked-Enters (given room) absent _ _ = inl (refl, refl)
  join_room_checked-Enters (given room) (given user) n u =
      join_called room user n u _ (add_player-IsJoin room user db)
  join_room_checked-Enters _ _ _ _ = refl

-- `join_room` never throws. Either it answers an error and the committed tables are as they were, or
-- the request named a room and a user, and the answer is that of a `Joined` with them.
pub join_room-Enters : (q : Request) (db : Db) → Ends (Enters q db.committed) Never (join_room q db)
unfolding join_room
join_room-Enters q db =
    Ends-catching _ _ _ (join_room_checked q.room_id q.user_id) _ db
      (join_room_checked-Enters q db q.room_id q.user_id refl refl) (λ db' e. inl (e, refl))

-- A departure that was served.
pub record Left (q : Request) (t : Tables) (a : Response) (t' : Tables) : Type 0 where
  pub user : ℤ
  pub hosted : q.user_id ≡ given user
  pub departure : Departure user t t'
  pub answer : a ≡ room_left

abbrev pub Leaves : Request → Tables → Response → Db → Type 0
Leaves q t a db = Failed t a db ⊎ Left q t a db.committed

module _ (q : Request) (db : Db) where
  exit_called :
      (user : ℤ)
      → q.user_id ≡ given user
      → (r : Ran Db Bool) → Atomic IsRefused (IsDeparture user db.committed) db.committed r
      → Ends
          (Leaves q db.committed)
          (Unchanged db.committed)
          (((λ _. r) >>= λ removed. pure (if removed then room_left else refused not_in_a_room)) db)
  exit_called user u (threw db') e = e
  exit_called user u (ran b db') (inl (same, stays)) = inl (same, rw stays refl)
  exit_called user u (ran b db') (inr (done, d)) =
      inr (record { user = user; hosted = u; departure = d; answer = rw done refl })

  exit_room_checked-Leaves :
      (user_field : Field ℤ)
      → q.user_id ≡ user_field
      → Ends (Leaves q db.committed) (Unchanged db.committed) (exit_room_checked user_field db)
  unfolding exit_room_checked
  exit_room_checked-Leaves absent _ = inl (refl, refl)
  exit_room_checked-Leaves mistyped _ = refl
  exit_room_checked-Leaves (given user) u = exit_called user u _ (remove_player-IsDeparture user db)

-- `exit_room` never throws. Either it answers an error and the committed tables are as they were, or
-- the request named a user, and the answer is that of a `Departure` of that user.
pub exit_room-Leaves : (q : Request) (db : Db) → Ends (Leaves q db.committed) Never (exit_room q db)
unfolding exit_room
exit_room-Leaves q db =
    Ends-catching _ _ _ (exit_room_checked q.user_id) _ db
      (exit_room_checked-Leaves q db q.user_id refl) (λ db' e. inl (e, refl))
