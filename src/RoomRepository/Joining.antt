-- ===== src/RoomRepository/Joining.antt =====
-- `addPlayer` of MatchingServer/src/repository/room_repository.cpp.

use mathlib.Core.Logic.{if_pos, if_neg}
use socket_communication.Common.{
  ℤ, ◌==◌, nat_eq, int_eq, bytes_eq, string_eq, Bool-cases, Option-cases, first_row, any_row, Ran,
  ◌>>◌, pure, ran, ℕ, ◌≡◌, refl, ◌∙◌, inl, inr, Bool, true, false, Option, some, List, [], ◌∷◌,
  ◌++◌, arith,
}
use socket_communication.Db.{
  Room, Tables, has_user, has_room, players, is_member, insert_member, room_status_eq,
  game_status_eq, waiting, Transaction, Close, Db, execute, commit,
}
use socket_communication.Db.Atomicity.{
  Closes, Atomic, run_work-Atomic, query-Closes, execute-Closes,
}
use socket_communication.Db.Healthy.{
  IsHealthy, quiet, opened, query-quiet, execute-quiet, Answers, run_work-commit,
}
use socket_communication.RoomRepository.{is_full, admit, add_player_body, add_player}

-- The row that `room_id = …` selects.
abbrev pub room_row : ℤ → Tables → Option Room
room_row room t = first_row (λ r. r.room_id == room) t.rooms

-- A user may enter: the room is waiting for players and has space, the user is known and not in it.
pub record Admits (room user : ℤ) (t : Tables) : Type 0 where
  pub slot : Room
  pub found : room_row room t ≡ some slot
  pub waits : slot.status ≡ waiting
  pub absent : is_member room user t.room_users ≡ false
  pub has_space : is_full slot.max_players (players room t.room_users) ≡ false
  pub known : has_user t user ≡ true

-- The tables after a user has entered at a time.
abbrev pub entered : ℤ → ℤ → ℕ → Tables → Tables
entered room user now t = record t {
  room_users = t.room_users ++ record { room = room; user = user; joined_at = now } ∷ [];
}

pub record Joined (room user : ℤ) (t t' : Tables) : Type 0 where
  pub admits : Admits room user t
  pub now : ℕ
  pub after : t' ≡ entered room user now t

abbrev pub IsRefused : Bool → Type 0
IsRefused b = b ≡ false

abbrev pub IsJoin : ℤ → ℤ → Tables → Bool → Tables → Type 0
IsJoin room user t b t' = (b ≡ true) × Joined room user t t'

pub insert_member_ran :
    (room user : ℤ) (now : ℕ) (t t' : Tables) (u : Unit {0})
    → insert_member room user now t ≡ ran u t'
    → (has_user t user ≡ true) × (t' ≡ entered room user now t)
unfolding insert_member
insert_member_ran room user now t t' u e = ground arith

module _ (room user : ℤ) (t : Tables) where
  abbrev Enters : Ran Transaction (Close Bool) → Type 0
  Enters = Closes IsRefused (IsJoin room user t)

  insert-Enters :
      (slot : Room)
      → room_row room t ≡ some slot
      → slot.status ≡ waiting
      → is_member room user t.room_users ≡ false
      → is_full slot.max_players (players room t.room_users) ≡ false
      → (w : Transaction) → w.tables ≡ t
      → Enters ((execute (insert_member room user) >> pure (commit true)) w)
  insert-Enters slot f s a p w e = execute-Closes _ _ t (insert_member room user) _ w e λ u w' i.
      let (known, after) = insert_member_ran room user w.now t w'.tables u i in
      (
        refl,
        record {
          admits = record {
            slot = slot;
            found = f;
            waits = s;
            absent = a;
            has_space = p;
            known = known;
          };
          now = w.now;
          after = after;
        },
      )

  admit-Enters :
      (slot : Room)
      → room_row room t ≡ some slot
      → slot.status ≡ waiting
      → (w : Transaction) → w.tables ≡ t
      → Enters (admit room user w)
  unfolding admit
  admit-Enters slot f s w e = query-Closes _ _ t _ _ w e λ w' e'.
      elim (Bool-cases (is_member room user t.room_users)) [
        | inl present ↦ rw present refl
        | inr absent ↦ rw absent (
            query-Closes _ _ t _ _ w' e' λ w'' e''.
              rw f (elim (Bool-cases (is_full slot.max_players (players room t.room_users))) [
                | inl full ↦ rw full refl
                | inr space ↦ rw space (insert-Enters slot f s absent space w'' e'')
              ]))
      ]

  add_player_body-Enters : (w : Transaction) → w.tables ≡ t → Enters (add_player_body room user w)
  unfolding add_player_body
  add_player_body-Enters w e = query-Closes _ _ t _ _ w e λ w' e'.
      elim (Option-cases (room_row room t)) [
        | inl missing ↦ rw missing refl
        | inr (slot, f) ↦ rw f (elim (room_status_eq.dec slot.status waiting) [
          | yes s ↦ rw (if_pos _ s) (admit-Enters slot f s w' e')
          | no s ↦ rw (if_neg _ s) refl
        ])
      ]

-- Whatever statements fail, `add_player` either answers false and leaves the committed tables as
-- they were, or answers true; then the room was waiting for players and had space, the user was
-- known and not in it, and the user's row in the room is the only change. If it throws, nothing has
-- changed.
pub add_player-IsJoin :
    (room user : ℤ) (db : Db)
    → Atomic IsRefused (IsJoin room user db.committed) db.committed (add_player room user db)
unfolding add_player
add_player-IsJoin room user db =
    run_work-Atomic _ _ false (add_player_body room user) db refl
      (add_player_body-Enters room user db.committed)

has_room_of_row :
    (room : ℤ) (rs : List Room) (r : Room)
    → first_row (λ x. x.room_id == room) rs ≡ some r
    → any_row (λ x. x.room_id == room) rs ≡ true
unfolding first_row any_row
has_room_of_row room [] r e = cc
has_room_of_row room (x ∷ rs) r e = ground (arith, has_room_of_row room rs r)

insert_member_admitted :
    (room user : ℤ) (now : ℕ) (t : Tables)
    → Admits room user t
    → insert_member room user now t ≡ ran tt (entered room user now t)
unfolding insert_member has_room
insert_member_admitted room user now t a =
    ground (arith, has_room_of_row room t.rooms a.slot a.found)

-- On a database that answers, a user whom the room admits gets in.
pub add_player_admitted :
    (room user : ℤ) (db : Db)
    → IsHealthy db
    → Admits room user db.committed
    → Answers true (entered room user db.link.now db.committed) (add_player room user db)
unfolding add_player
add_player_admitted room user db h a =
    run_work-commit false (add_player_body room user) db true _ h runs
  where
    runs :
        add_player_body room user (opened db)
        ≡ ran (commit true) (quiet db.link.now (entered room user db.link.now db.committed))
    runs =
        unfold add_player_body in
        query-quiet _ _ db.link.now db.committed
        ∙ rw (a.found, if_pos (room_status_eq.dec a.slot.status waiting) a.waits)
            (query-quiet _ _ db.link.now db.committed
              ∙ rw a.absent (
                  query-quiet _ _ db.link.now db.committed
                  ∙ rw (a.found, a.has_space)
                      (execute-quiet (insert_member room user) _ db.link.now db.committed _ tt
                        (insert_member_admitted room user db.link.now db.committed a))))
