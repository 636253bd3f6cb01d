-- ===== src/RoomRepository/Listing.antt =====
-- `findAllOpen` of MatchingServer/src/repository/room_repository.cpp.

use mathlib.Core.List.Perm
use socket_communication.Common.{
  ltb, ◌==◌, nat_eq, int_eq, bytes_eq, string_eq, Bool-cases, where_rows, All, All-imp, ℕ, ◌≤◌, ◌≡◌,
  refl, subst, inl, inr, Bool, true, false, ◌||◌, List, [], ◌∷◌, Perm, arith,
}
use socket_communication.Db.{
  RoomStatus, Room, Tables, room_status_eq, game_status_eq, waiting, game_in_progress, terminated,
  Db,
}
use socket_communication.RoomRepository.{is_open, insert_newest, newest_first, find_all_open}
use socket_communication.Db.Atomicity.{Atomic, run_work-Atomic, query-Closes}

-- Each room is at least as new as those after it.
abbrev pub IsNewestFirst : List Room → Type 0
IsNewestFirst [] = Unit {0}
IsNewestFirst (r ∷ rs) = All (λ s. s.created_at ≤ r.created_at) rs × IsNewestFirst rs

insert_newest-perm : (r : Room) (rs : List Room) → Perm (insert_newest r rs) (r ∷ rs)
unfolding insert_newest
insert_newest-perm r [] = Perm.refl _
insert_newest-perm r (s ∷ ss) = elim (Bool-cases (ltb r.created_at s.created_at)) [
  | inl older ↦ rw older (Perm.trans (Perm.cons s (insert_newest-perm r ss)) (Perm.swap r s ss))
  | inr newer ↦ rw newer (Perm.refl _)
]

newest_first-perm : (rs : List Room) → Perm (newest_first rs) rs
unfolding newest_first
newest_first-perm [] = Perm.refl _
newest_first-perm (r ∷ rs) =
    Perm.trans (insert_newest-perm r (newest_first rs)) (Perm.cons r (newest_first-perm rs))

insert_newest-le :
    (n : ℕ) (r : Room) (rs : List Room)
    → r.created_at ≤ n
    → All (λ s. s.created_at ≤ n) rs
    → All (λ s. s.created_at ≤ n) (insert_newest r rs)
unfolding insert_newest
insert_newest-le n r [] h a = (h, tt)
insert_newest-le n r (s ∷ ss) h a = elim (Bool-cases (ltb r.created_at s.created_at)) [
  | inl older ↦ rw older (a.0, insert_newest-le n r ss h a.1)
  | inr newer ↦ rw newer (h, a)
]

insert_newest-IsNewestFirst :
    (r : Room) (rs : List Room) → IsNewestFirst rs → IsNewestFirst (insert_newest r rs)
unfolding insert_newest
insert_newest-IsNewestFirst r [] a = (tt, tt)
insert_newest-IsNewestFirst r (s ∷ ss) a = elim (Bool-cases (ltb r.created_at s.created_at)) [
  | inl older ↦
      rw older (
        insert_newest-le s.created_at r ss (ground arith) a.0,
        insert_newest-IsNewestFirst r ss a.1,
      )
  | inr newer ↦
      let s-r : s.created_at ≤ r.created_at = ground arith in
      rw newer ((s-r, All-imp _ _ ss (λ x h. omega arith) a.0), a)
]

newest_first-IsNewestFirst : (rs : List Room) → IsNewestFirst (newest_first rs)
unfolding newest_first
newest_first-IsNewestFirst [] = tt
newest_first-IsNewestFirst (r ∷ rs) =
    insert_newest-IsNewestFirst r (newest_first rs) (newest_first-IsNewestFirst rs)

-- Players can be in a room of this status.
abbrev pub is_listed : RoomStatus → Bool
is_listed waiting = true
is_listed game_in_progress = true
is_listed terminated = false

is_open-listed : (r : Room) → is_open r ≡ is_listed r.status
unfolding room_status_eq
is_open-listed r = go r.status
  where
    go : (s : RoomStatus) → (s == waiting || s == game_in_progress) ≡ is_listed s
    go waiting = refl
    go game_in_progress = refl
    go terminated = refl

-- What a listing returns: every room of these statuses once, and no other, newest first.
abbrev pub IsListing : Tables → List Room → Tables → Type 0
IsListing t rows t' =
    (t' ≡ t) × Perm rows (where_rows (λ r. is_listed r.status) t.rooms) × IsNewestFirst rows

-- Whatever statements fail, `find_all_open` changes no committed table; it answers an empty list or
-- exactly the rooms that are waiting or in a game, each once, the newest first.
pub find_all_open-IsListing :
    (db : Db) → Atomic (λ rows. rows ≡ []) (IsListing db.committed) db.committed (find_all_open db)
unfolding find_all_open
find_all_open-IsListing db = run_work-Atomic _ _ [] _ db refl λ w e.
    query-Closes _ _ db.committed _ _ w e λ w' e'. (
      e',
      subst
          (λ p.
            Perm (newest_first (where_rows is_open db.committed.rooms))
              (where_rows p db.committed.rooms))
          (λ i r. is_open-listed r i) (newest_first-perm _),
      newest_first-IsNewestFirst (where_rows is_open db.committed.rooms),
    )
