-- ===== src/RoomRepository/Ids.antt =====
-- Room ids as the primary key of `rooms` (MatchingServer/db-init.sql).

use socket_communication.Common.{
  ℤ, if◌then◌else◌, ◌==◌, nat_eq, int_eq, bytes_eq, string_eq, Bool-cases, update_rows, first_row,
  any_row, All, any_row-update_rows, ◌≡◌, refl, sym, ap, subst, ◌∙◌, inl, inr, Bool, true, false,
  some, List, [], ◌∷◌, arith,
}
use socket_communication.Db.{Room, room_status_eq, game_status_eq}

abbrev pub DistinctIds : List Room → Type 0
DistinctIds [] = Unit {0}
DistinctIds (r ∷ rs) = (any_row (λ s. s.room_id == r.room_id) rs ≡ false) × DistinctIds rs

none_other :
    (room : ℤ) (rs : List Room) (slot : Room)
    → any_row (λ s. s.room_id == room) rs ≡ false
    → All (λ r. r.room_id ≡ room → r ≡ slot) rs
unfolding any_row
none_other room [] slot h = tt
none_other room (r ∷ rs) slot h =
    (λ e. absurd (ground arith), none_other room rs slot (ground arith))

row_listed :
    (p : Room → Bool) (room : ℤ) (rs : List Room) (slot : Room)
    → ((r : Room) → p r ≡ true → r.room_id ≡ room)
    → first_row p rs ≡ some slot
    → any_row (λ s. s.room_id == room) rs ≡ true
unfolding first_row any_row
row_listed p room [] slot h f = cc
row_listed p room (r ∷ rs) slot h f = ground (arith, h r, row_listed p room rs slot h)

-- With distinct ids, the row that a test on the id selects is the only one of that id.
pub only_row :
    (p : Room → Bool) (room : ℤ) (rs : List Room) (slot : Room)
    → ((r : Room) → p r ≡ true → r.room_id ≡ room)
    → DistinctIds rs
    → first_row p rs ≡ some slot
    → All (λ r. r.room_id ≡ room → r ≡ slot) rs
unfolding first_row
only_row p room [] slot h d f = tt
only_row p room (r ∷ rs) slot h d f = elim (Bool-cases (p r)) [
  | inl hit ↦ (λ _. ground arith, none_other room rs slot (rw (← h r hit) d.0))
  | inr miss ↦
      let rest : first_row p rs ≡ some slot = ground arith in
      (
        λ e. absurd (unequal (sym (row_listed p room rs slot h rest) ∙ rw (← e) d.0)),
        only_row p room rs slot h d.1 rest,
      )
]
  where
    unequal : ¬ (true ≡ false)
    unequal e = cc

pub same_id : (room : ℤ) (r : Room) → (r.room_id == room) ≡ true → r.room_id ≡ room
same_id room r e = ground arith

-- An update that keeps ids keeps them distinct.
pub DistinctIds-update_rows :
    (p : Room → Bool) (f : Room → Room) (rs : List Room)
    → ((r : Room) → (f r).room_id ≡ r.room_id)
    → DistinctIds rs
    → DistinctIds (update_rows p f rs)
unfolding update_rows
DistinctIds-update_rows p f [] h d = tt
DistinctIds-update_rows p f (r ∷ rs) h d = (
  subst (λ k. any_row (λ s. s.room_id == k) (update_rows p f rs) ≡ false) (sym (kept (p r)))
      (any_row-update_rows (λ s. s.room_id == r.room_id) p f rs
          (λ x. ap (λ k. k == r.room_id) (h x))
        ∙ d.0),
  DistinctIds-update_rows p f rs h d.1,
)
  where
    kept : (b : Bool) → (if b then f r else r).room_id ≡ r.room_id
    kept true = h r
    kept false = refl
