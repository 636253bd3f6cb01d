-- ===== src/RoomService/Rooms.antt =====
-- `createRoom` of MatchingServer/src/service/room_service.cpp.

use socket_communication.Common.{
  ℤ, Within, Within-of_lt_int, Bool-cases, Ran, ◌>>=◌, pure, Ends, Ends-catching, ran, threw, ℕ,
  ◌≡◌, refl, ◌⊎◌, inl, inr, true, false, Option, none, some, arith,
}
use socket_communication.Db.{Room, Tables, Text, Db}
use socket_communication.Db.Atomicity.{Atomic}
use socket_communication.Protocol.{
  Field, Request, Response, is_success, absent, mistyped, given, room_created,
}
use socket_communication.RoomRepository.Creation.{
  Creation, opened_for, IsNone, create_room_with_host-Creation,
}
use socket_communication.RoomService.{
  is_valid_room_name, is_out_of_range, created, create_room_checked, create_room,
}

-- An answer with the status "error", and the committed tables as they were.
abbrev pub Failed : Tables → Response → Db → Type 0
Failed t a db = (db.committed ≡ t) × (is_success a ≡ false)

abbrev pub Unchanged : Tables → Db → Type 0
Unchanged t db = db.committed ≡ t

abbrev pub Never : Db → Type 0
Never db = ⊥

-- A request that was served: its name was valid and its limit between 2 and 8.
pub record Made (q : Request) (t : Tables) (a : Response) (t' : Tables) : Type 0 where
  pub name : Text
  pub host : ℤ
  pub limit : ℤ
  pub named : q.room_name ≡ given name
  pub hosted : q.user_id ≡ given host
  pub limited : q.max_players ≡ given limit
  pub valid : is_valid_room_name name ≡ true
  pub range : Within 2 8 limit
  pub room : Room
  pub creation : Creation host name limit t (some room) t'
  pub answer :
      a
      ≡ room_created (record {
        room_id = room.room_id;
        room_name = name;
        max_players = limit;
        ip_address = room.ip_address;
        port = room.port;
      })

abbrev pub Makes : Request → Tables → Response → Db → Type 0
Makes q t a db = Failed t a db ⊎ Made q t a db.committed

out_of_range-Within : (n : ℤ) → is_out_of_range (given n) ≡ false → Within 2 8 n
out_of_range-Within n h = Within-of_lt_int 2 8 n (ground arith) (ground arith)

-- What is answered with a room that was opened.
created-opened :
    (host : ℤ) (name : Text) (limit : ℤ) (now : ℕ) (row r : Room)
    → r ≡ opened_for host name limit now row
    → created (some r)
      ≡ room_created (record {
        room_id = r.room_id;
        room_name = name;
        max_players = limit;
        ip_address = r.ip_address;
        port = r.port;
      })
created-opened host name limit now row r e = rw e refl

module _ (q : Request) (db : Db) where
  create_called :
      (name : Text) (host limit : ℤ)
      → q.room_name ≡ given name
      → q.user_id ≡ given host
      → q.max_players ≡ given limit
      → is_valid_room_name name ≡ true
      → Within 2 8 limit
      → (r : Ran Db (Option Room))
      → Atomic IsNone (Creation host name limit db.committed) db.committed r
      → Ends
          (Makes q db.committed)
          (Unchanged db.committed)
          (((λ _. r) >>= λ row. pure (created row)) db)
  create_called name host limit n u m v w (threw db') e = e
  create_called name host limit n u m v w (ran row db') (inl (same, absent_row)) =
      inl (same, rw absent_row refl)
  create_called name host limit n u m v w (ran none db') (inr c) =
      let never : none ≡ some (opened_for host name limit c.now c.row) = c.answer in cc
  create_called name host limit n u m v w (ran (some r) db') (inr c) = inr (record {
    name = name;
    host = host;
    limit = limit;
    named = n;
    hosted = u;
    limited = m;
    valid = v;
    range = w;
    room = r;
    creation = c;
    answer = created-opened host name limit c.now c.row r (cc);
  })

  create_room_checked-Makes :
      (name_field : Field Text) (user_field max_field : Field ℤ)
      → q.room_name ≡ name_field
      → q.user_id ≡ user_field
      → q.max_players ≡ max_field
      → Ends
          (Makes q db.committed)
          (Unchanged db.committed)
          (create_room_checked name_field user_field max_field db)
  unfolding create_room_checked
  create_room_checked-Makes absent u m _ _ _ = inl (refl, refl)
  create_room_checked-Makes mistyped absent m _ _ _ = inl (refl, refl)
  create_room_checked-Makes mistyped mistyped absent _ _ _ = inl (refl, refl)
  create_room_checked-Makes mistyped (given u) absent _ _ _ = inl (refl, refl)
  create_room_checked-Makes (given name) absent m _ _ _ = inl (refl, refl)
  create_room_checked-Makes (given name) mistyped absent _ _ _ = inl (refl, refl)
  create_room_checked-Makes (given name) (given u) absent _ _ _ = inl (refl, refl)
  create_room_checked-Makes (given name) (given u) (given m) n' u' m' =
      elim (Bool-cases (is_valid_room_name name)) [
        | inr bad ↦ rw bad (inl (refl, refl))
        | inl valid ↦ rw valid (elim (Bool-cases (is_out_of_range (given m))) [
          | inl out ↦ rw out (inl (refl, refl))
          | inr within ↦ rw within (
              create_called name u m n' u' m' valid (out_of_range-Within m within) _
                (create_room_with_host-Creation u name m db))
        ])
      ]
  create_room_checked-Makes (given name) mistyped (given m) _ _ _ =
      elim (Bool-cases (is_valid_room_name name)) [
        | inr bad ↦ rw bad (inl (refl, refl))
        | inl valid ↦ rw valid (elim (Bool-cases (is_out_of_range (given m))) [
          | inl out ↦ rw out (inl (refl, refl))
          | inr within ↦ rw within refl
        ])
      ]
  create_room_checked-Makes (given name) u mistyped _ _ _ =
      elim (Bool-cases (is_valid_room_name name)) [
        | inr bad ↦ ground arith
        | inl valid ↦ ground arith
      ]
  create_room_checked-Makes _ _ _ _ _ _ = refl

-- `create_room` never throws. Either it answers an error and the committed tables are as they were,
-- or the request named a valid room name, a host and a limit from 2 to 8, a `Creation` with them was
-- made, and the answer is a success with the room's id, that name and limit, and its address.
pub create_room-Makes :
    (q : Request) (db : Db) → Ends (Makes q db.committed) Never (create_room q db)
unfolding create_room
create_room-Makes q db =
    Ends-catching _ _ _ (create_room_checked q.room_name q.user_id q.max_players) _ db
      (create_room_checked-Makes q db q.room_name q.user_id q.max_players refl refl refl)
      (λ db' e. inl (e, refl))
