-- ===== src/RoomRepository/Creation.antt =====
-- `createRoomWithHost` of MatchingServer/src/repository/room_repository.cpp.

use mathlib.Core.List.{mem-cons_self, mem-cons_of_mem}
use socket_communication.Common.{
  ℤ, lt_int, lt_int_asym, lt_int_trans, lt_int_irrefl, ◌==◌, nat_eq, int_eq, bytes_eq, string_eq,
  Bool-cases, Option-cases, where_rows, update_rows, first_row, any_row, All, Ran, ran, ℕ, ◌≡◌,
  refl, subst, ◌⊎◌, inl, inr, false, Option, none, some, List, [], ◌∷◌, Mem, arith,
}
use socket_communication.Db.{
  Room, Tables, Text, insert_member, room_status_eq, game_status_eq, waiting, Transaction, Close,
  Db,
}
use socket_communication.Db.Atomicity.{
  Closes, Atomic, run_work-Atomic, query-Closes, execute-Closes,
}
use socket_communication.RoomRepository.{
  is_terminated, lower, lowest, reopens, reopen_room, open_for_host, create_room_body,
  create_room_with_host,
}
use socket_communication.RoomRepository.Joining.{entered, insert_member_ran}

-- No row has an id below this one.
abbrev pub AtLeast : ℤ → List Room → Type 0
AtLeast id = All (λ s. lt_int s.room_id id ≡ false)

AtLeast-mono : (a b : ℤ) (rs : List Room) → lt_int b a ≡ false → AtLeast b rs → AtLeast a rs
AtLeast-mono a b [] h l = tt
AtLeast-mono a b (s ∷ rs) h l = (lt_int_trans a b s.room_id h l.0, AtLeast-mono a b rs h l.1)

lower_lem :
    (r : Room) (rs : List Room) (o : Option Room) (m : Room)
    → ((s : Room) → o ≡ some s → AtLeast s.room_id rs)
    → (o ≡ none → rs ≡ [])
    → lower r o ≡ some m
    → AtLeast m.room_id (r ∷ rs) × ((m ≡ r) ⊎ (o ≡ some m))
lower_lem r rs none m h n e =
    let m-r : m ≡ r = cc in rw (n refl, m-r) ((lt_int_irrefl r.room_id, tt), inl refl)
lower_lem r rs (some s) m h n e = elim (Bool-cases (lt_int s.room_id r.room_id)) [
  | inl below ↦
      let s-m : s ≡ m = ground arith in
      subst (Result (some s)) s-m ((lt_int_asym s.room_id r.room_id below, h s refl), inr refl)
  | inr above ↦
      let r-m : r ≡ m = ground arith in
      subst (Result (some s)) r-m
        ((lt_int_irrefl r.room_id, AtLeast-mono r.room_id s.room_id rs above (h s refl)), inl refl)
]
  where
    Result : Option Room → Room → Type 0
    Result o x = AtLeast x.room_id (r ∷ rs) × ((x ≡ r) ⊎ (o ≡ some x))

lowest-nil : (rs : List Room) → lowest rs ≡ none → rs ≡ []
unfolding lowest
lowest-nil [] e = refl
lowest-nil (r ∷ rs) e = absurd (go (lowest rs) e)
  where
    go : (o : Option Room) → ¬ (lower r o ≡ none)
    go none e' = cc
    go (some s) e' = ground arith

-- ORDER BY room_id LIMIT 1 returns a row of the result, and no row has a smaller id.
pub lowest-AtLeast :
    (rs : List Room) (m : Room) → lowest rs ≡ some m → AtLeast m.room_id rs × Mem m rs
unfolding lowest
lowest-AtLeast [] m e = cc
lowest-AtLeast (r ∷ rs) m e =
    let (least, which) =
      lower_lem r rs (lowest rs) m (λ s h. (lowest-AtLeast rs s h).0) (lowest-nil rs) e in
    (
      least,
      elim which [
        | inl h ↦ rw h mem-cons_self
        | inr h ↦ mem-cons_of_mem r (lowest-AtLeast rs m h).1
      ],
    )

-- A room as it is after it was opened for a host: its id, address and port stay.
abbrev pub opened_for : ℤ → Text → ℤ → ℕ → Room → Room
opened_for host name max_players now r = record {
  room_id = r.room_id;
  room_name = name;
  host_id = host;
  ip_address = r.ip_address;
  port = r.port;
  max_players = max_players;
  status = waiting;
  created_at = now;
}

-- The tables with the terminated room of this id opened again.
abbrev pub room_opened : ℤ → Text → ℤ → ℤ → ℕ → Tables → Tables
room_opened host name max_players id now t = record t {
  rooms = update_rows (reopens id) (opened_for host name max_players now) t.rooms;
}

-- A creation: the host was in no room, the terminated room of the lowest id is opened for it, and
-- the host's row in that room is added.
pub record Creation (host : ℤ) (name : Text) (max_players : ℤ) (t : Tables) (o : Option Room)
    (t' : Tables) : Type 0 where
  pub homeless : any_row (λ m. m.user == host) t.room_users ≡ false
  pub slot : Room
  pub free : lowest (where_rows is_terminated t.rooms) ≡ some slot
  pub row : Room
  pub matched : first_row (reopens slot.room_id) t.rooms ≡ some row
  pub now : ℕ
  pub answer : o ≡ some (opened_for host name max_players now row)
  pub joined : ℕ
  pub after :
      t' ≡ entered slot.room_id host joined (room_opened host name max_players slot.room_id now t)

abbrev pub IsNone {ℓ} : {A : Type ℓ} → Option A → Type ℓ
IsNone o = o ≡ none

-- The UPDATE returns no row, or the first terminated row of the id, opened.
reopen_room_ran :
    (host : ℤ) (name : Text) (max_players id : ℤ) (now : ℕ) (t t' : Tables) (o : Option Room)
    → reopen_room host name max_players id now t ≡ ran o t'
    → (o ≡ none)
      ⊎ ((r : Room) × (first_row (reopens id) t.rooms ≡ some r)
          × (o ≡ some (opened_for host name max_players now r))
          × (t' ≡ room_opened host name max_players id now t))
unfolding reopen_room
reopen_room_ran host name max_players id now t t' o e =
    elim (Option-cases (first_row (reopens id) t.rooms)) [
      | inl gone ↦ inl (ground arith)
      | inr (r, m) ↦ inr (r, m, ground arith, ground arith)
    ]

module _ (host : ℤ) (name : Text) (max_players : ℤ) (t : Tables) where
  abbrev Creates : Ran Transaction (Close (Option Room)) → Type 0
  Creates = Closes IsNone (Creation host name max_players t)

  open_for_host-Creates :
      (slot : Room)
      → any_row (λ m. m.user == host) t.room_users ≡ false
      → lowest (where_rows is_terminated t.rooms) ≡ some slot
      → (w : Transaction) → w.tables ≡ t
      → Creates (open_for_host host name max_players slot.room_id w)
  unfolding open_for_host
  open_for_host-Creates slot h f w e =
      execute-Closes _ _ t (reopen_room host name max_players slot.room_id) _ w e λ o w' i.
        elim (reopen_room_ran host name max_players slot.room_id w.now t w'.tables o i) [
          | inl none_left ↦ rw none_left refl
          | inr (r, m, answer, opens) ↦ rw answer (
              execute-Closes _ _ _ (insert_member slot.room_id host) _ w' opens λ u w'' i'. record {
                homeless = h;
                slot = slot;
                free = f;
                row = r;
                matched = m;
                now = w.now;
                answer = refl;
                joined = w'.now;
                after = (insert_member_ran slot.room_id host w'.now _ w''.tables u i').1;
              })
        ]

  create_room_body-Creates :
      (w : Transaction) → w.tables ≡ t → Creates (create_room_body host name max_players w)
  unfolding create_room_body
  create_room_body-Creates w e = query-Closes _ _ t _ _ w e λ w' e'.
      elim (Bool-cases (any_row (λ m. m.user == host) t.room_users)) [
        | inl joined ↦ rw joined refl
        | inr homeless ↦ rw homeless (
            query-Closes _ _ t _ _ w' e' λ w'' e''.
              elim (Option-cases (lowest (where_rows is_terminated t.rooms))) [
                | inl full ↦ rw full refl
                | inr (slot, free) ↦ rw free (open_for_host-Creates slot homeless free w'' e'')
              ])
      ]

-- Whatever statements fail, `create_room_with_host` either answers no room and leaves the committed
-- tables as they were, or makes a `Creation`: the host was in no room, and the terminated room of
-- the lowest id is waiting again, with the host, the name and the limit asked for, at its old address, and
-- the host is its new player. If it throws, nothing has changed.
pub create_room_with_host-Creation :
    (host : ℤ) (name : Text) (max_players : ℤ) (db : Db)
    → Atomic IsNone
        (Creation host name max_players db.committed)
        db.committed
        (create_room_with_host host name max_players db)
unfolding create_room_with_host
create_room_with_host-Creation host name max_players db =
    run_work-Atomic _ _ none (create_room_body host name max_players) db refl
      (create_room_body-Creates host name max_players db.committed)
