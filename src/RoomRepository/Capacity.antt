-- ===== src/RoomRepository/Capacity.antt =====
-- The capacity of rooms, over the changes of MatchingServer/src/repository/room_repository.cpp.

use mathlib.Core.Logic.{if_pos, if_neg}
use native.Mathlib.Nat.{add-zero}
use socket_communication.Common.{
  ℤ, lt_int, pos, negsuc, if◌then◌else◌, ◌==◌, nat_eq, int_eq, bytes_eq, string_eq, count_rows, All,
  count_rows-append, All-imp, All-both, All-update_rows, count_rows-delete_rows-le, first_row-holds,
  ℕ, ◌+◌, ◌≤◌, ◌≡◌, refl, sym, ap, ◌∙◌, inl, inr, true, false, Option, List, [], ◌∷◌, arith,
}
use socket_communication.Db.{
  Room, Member, Tables, Text, players, room_status_eq, game_status_eq, waiting, terminated,
}
use socket_communication.RoomRepository.{reopened, reopens, is_full}
use socket_communication.RoomRepository.Ids.{
  DistinctIds, only_row, same_id, DistinctIds-update_rows,
}
use socket_communication.RoomRepository.Joining.{Admits, Joined, entered}
use socket_communication.RoomRepository.Creation.{Creation}
use socket_communication.RoomRepository.Leaving.{Departure, is_user, without}

-- A room holds at most its `max_players`, and a terminated room holds nobody.
abbrev pub IsWithin : List Member → Room → Type 0
IsWithin ms r =
    (lt_int r.max_players (pos (players r.room_id ms)) ≡ false)
    × (r.status ≡ terminated → players r.room_id ms ≡ 0)

pub record IsConsistent (t : Tables) : Type 0 where
  pub distinct : DistinctIds t.rooms
  pub within : All (IsWithin t.room_users) t.rooms

players-entered :
    (r room user : ℤ) (now : ℕ) (t : Tables)
    → players r (entered room user now t).room_users
      ≡ players r t.room_users + (if room == r then 1 else 0)
unfolding players count_rows
players-entered r room user now t = ground (
  arith,
  count_rows-append (λ m. m.room == r) t.room_users
      (record { room = room; user = user; joined_at = now } ∷ []),
)

waiting-ne-terminated : ¬ (waiting ≡ terminated)
waiting-ne-terminated e = cc

not-full : (max : ℤ) (n : ℕ) → is_full max n ≡ false → lt_int max (pos (n + 1)) ≡ false
not-full (pos m) n h = ground arith
not-full (negsuc m) n h = cc

entered-IsWithin :
    (room user : ℤ) (t : Tables) (a : Admits room user t) (now : ℕ) (r : Room)
    → IsWithin t.room_users r
    → (r.room_id ≡ room → r ≡ a.slot)
    → IsWithin (entered room user now t).room_users r
entered-IsWithin room user t a now r w only = elim (int_eq.dec room r.room_id) [
  | yes e ↦
      let r-slot : r ≡ a.slot = only (sym e) in
      (
        rw (players-entered r.room_id room user now t, if_pos (int_eq.dec room r.room_id) e)
            (not-full r.max_players _ (rw (← e, r-slot) a.has_space)),
        λ h.
            absurd
              (waiting-ne-terminated (sym a.waits ∙ sym (ap (λ (x : Room). x.status) r-slot) ∙ h)),
      )
  | no n ↦
      rw (players-entered r.room_id room user now t, if_neg (int_eq.dec room r.room_id) n, add-zero)
        w
]

-- A user who joins keeps every room within its capacity and every terminated room empty.
pub Joined-IsConsistent :
    (room user : ℤ) (t t' : Tables) → Joined room user t t' → IsConsistent t → IsConsistent t'
Joined-IsConsistent room user t t' j c = rw j.after (record {
  distinct = c.distinct;
  within =
      All-imp _ _ t.rooms (λ r (w, o). entered-IsWithin room user t j.admits j.now r w o)
        (All-both _ _ t.rooms c.within
          (only_row _ room t.rooms j.admits.slot (same_id room) c.distinct j.admits.found));
})

true-ne-false : ¬ (true ≡ false)
true-ne-false e = cc

reopens_lem : (id : ℤ) (r : Room) → reopens id r ≡ true → (r.room_id ≡ id) × (r.status ≡ terminated)
reopens_lem id r e = ground arith

opened-IsWithin :
    (host : ℤ) (name : Text) (max_players id : ℤ) (now : ℕ) (t : Tables) (r : Room)
    → lt_int max_players (pos 1) ≡ false
    → reopens id r ≡ true
    → IsWithin t.room_users r
    → IsWithin (entered id host now t).room_users (reopened host name max_players now r)
opened-IsWithin host name max_players id now t r m e w =
    let (i, s) = reopens_lem id r e in
    rw (players-entered r.room_id id host now t, if_pos (int_eq.dec id r.room_id) (sym i), w.1 s)
      (m, λ h. absurd (waiting-ne-terminated h))

others-IsWithin :
    (host id : ℤ) (now : ℕ) (t : Tables) (row r : Room)
    → reopens id row ≡ true
    → (r.room_id ≡ id → r ≡ row)
    → reopens id r ≡ false
    → IsWithin t.room_users r
    → IsWithin (entered id host now t).room_users r
others-IsWithin host id now t row r h only e w = elim (int_eq.dec id r.room_id) [
  | yes i ↦ absurd (true-ne-false (sym h ∙ ap (reopens id) (sym (only (sym i))) ∙ e))
  | no n ↦
      rw (players-entered r.room_id id host now t, if_neg (int_eq.dec id r.room_id) n, add-zero) w
]

-- Opening a room for a host keeps them too, if it has a place for the host.
pub Creation-IsConsistent :
    (host : ℤ) (name : Text) (max_players : ℤ) (t : Tables) (o : Option Room) (t' : Tables)
    → lt_int max_players (pos 1) ≡ false
    → Creation host name max_players t o t'
    → IsConsistent t
    → IsConsistent t'
Creation-IsConsistent host name max_players t o t' m d c = rw d.after (record {
  distinct = DistinctIds-update_rows _ _ t.rooms (λ r. refl) c.distinct;
  within =
      All-update_rows _ _ (reopens id) _ t.rooms
        (λ r e (w, _). opened-IsWithin host name max_players id d.joined t r m e w)
        (λ r e (w, only).
          others-IsWithin host id d.joined t d.row r
            (first_row-holds (reopens id) t.rooms d.row d.matched) only e w)
        (All-both _ _ t.rooms c.within (
          only_row (reopens id) id t.rooms d.row (λ r e. (reopens_lem id r e).0) c.distinct
            d.matched));
})
  where
    id : ℤ
    id = d.slot.room_id

without-IsWithin :
    (user : ℤ) (t : Tables) (r : Room)
    → IsWithin t.room_users r
    → IsWithin (without user t).room_users r
unfolding players
without-IsWithin user t r w =
    let fewer = count_rows-delete_rows-le (λ m. m.room == r.room_id) (is_user user) t.room_users in
    (under r.max_players fewer w.0, λ h. none_left fewer (w.1 h))
  where
    under : (max : ℤ) {a b : ℕ} → a ≤ b → lt_int max (pos b) ≡ false → lt_int max (pos a) ≡ false
    under (pos m) l h = ground arith
    under (negsuc m) l h = cc

    none_left : {a b : ℕ} → a ≤ b → b ≡ 0 → a ≡ 0
    none_left l e = omega arith

-- So does a departure.
pub Departure-IsConsistent :
    (user : ℤ) (t t' : Tables) → Departure user t t' → IsConsistent t → IsConsistent t'
Departure-IsConsistent user t t' d c = elim d.after [
  | inl (_, e) ↦ rw e (record {
    distinct = c.distinct;
    within = All-imp _ _ t.rooms (without-IsWithin user t) c.within;
  })
  | inr (empty, e) ↦ rw e (record {
    distinct = DistinctIds-update_rows _ _ t.rooms (λ r. refl) c.distinct;
    within =
        All-update_rows _ _ (λ r. r.room_id == d.row.room) _ t.rooms
          (λ r h w.
            let (within, _) = without-IsWithin user t r w in
            (within, λ _. rw (same_id d.row.room r h) empty))
          (λ r h w. without-IsWithin user t r w) c.within;
  })
]
