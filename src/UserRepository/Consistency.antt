-- ===== src/UserRepository/Consistency.antt =====
-- The methods of MatchingServer/src/repository/user_repository.cpp write the table of users only.

use socket_communication.Common.{
  ℤ, minus_one, pos, if◌then◌else◌, ◌==◌, nat_eq, int_eq, bytes_eq, string_eq, any_row, All, Ran,
  Action, ◌>>=◌, pure, Ends, Ends-bind, ran, threw, ℕ, suc, ◌≡◌, refl, sym, ap, subst, inl, inr,
  Bool, true, false, not, ◌||◌, Option, none, some, List,
}
use socket_communication.Db.{
  User, Tables, Text, fits, room_status_eq, game_status_eq, Transaction, Close, Db, execute,
  run_work, commit,
}
use socket_communication.Db.Atomicity.{
  Closes, Atomic, run_work-Atomic, query-Closes, execute-Closes,
}
use socket_communication.Protocol.{Field, get, absent, mistyped, given}
use socket_communication.UserRepository.{
  user_named, close_found, find_by_username, insert_user, create_user, touch_user,
  update_last_login, rename_user, update_user_nick_name,
}
use socket_communication.RoomRepository.Ids.{DistinctIds}
use socket_communication.RoomRepository.Capacity.{IsConsistent, IsWithin}

-- The rooms and who is in them.
abbrev pub SameRooms : Tables → Tables → Type 0
SameRooms t t' = (t'.rooms ≡ t.rooms) × (t'.room_users ≡ t.room_users)

SameRooms-IsConsistent : (t t' : Tables) → SameRooms t t' → IsConsistent t → IsConsistent t'
SameRooms-IsConsistent t t' (r, m) c = record {
  distinct = subst DistinctIds (sym r) c.distinct;
  within =
      subst (λ rs. All (IsWithin t'.room_users) rs) (sym r)
        (subst (λ ms. All (IsWithin ms) t.rooms) (sym m) c.within);
}

-- However it ends, the committed tables are consistent.
abbrev pub Consistent {ℓ} : {A : Type ℓ} → Ran Db A → Type 0
Consistent = Ends (λ _ db. IsConsistent db.committed) (λ db. IsConsistent db.committed)

-- A method that commits the rooms as they were.
work-Consistent {ℓ} :
    {A : Type ℓ} (fallback : A) (body : Action Transaction (Close A)) (db : Db)
    → ((w : Transaction)
        → w.tables ≡ db.committed
        → Closes (λ _. Unit {0}) (λ _ t. SameRooms db.committed t) (body w))
    → IsConsistent db.committed
    → Consistent (run_work fallback body db)
work-Consistent {A} fallback body db h c =
    go _ (run_work-Atomic (λ _. Unit {0}) (λ _ t. SameRooms db.committed t) fallback body db tt h)
  where
    go :
        (r : Ran Db A)
        → Atomic (λ _. Unit {0}) (λ _ t. SameRooms db.committed t) db.committed r
        → Consistent r
    go (ran a db') (inl (e, u)) = subst IsConsistent (sym e) c
    go (ran a db') (inr s) = SameRooms-IsConsistent db.committed db'.committed s c
    go (threw db') e = subst IsConsistent (sym e) c

-- A statement that spares the rooms.
abbrev Spares {ℓ} : {B : Type ℓ} → (ℕ → Action Tables B) → Type 0
Spares f = (now : ℕ) (t : Tables) → Ends (λ _ t'. SameRooms t t') (λ _. Unit {0}) (f now t)

-- A method that is one such statement.
change-Consistent {ℓ} :
    {B : Type ℓ} (fallback : B) (f : ℕ → Action Tables B) (db : Db)
    → Spares f
    → IsConsistent db.committed
    → Consistent (run_work fallback (execute f >>= λ b. pure (commit b)) db)
change-Consistent fallback f db h = work-Consistent fallback _ db (λ w e.
    execute-Closes (λ _. Unit {0}) (λ _ t. SameRooms db.committed t) db.committed f
      (λ b. pure (commit b)) w e
      (λ b w' i.
        subst (Ends (λ _ t'. SameRooms db.committed t') (λ _. Unit {0})) i (h w.now db.committed)))

insert_user-Spares : (name hash nick : Text) → Spares (insert_user name hash nick)
unfolding insert_user
insert_user-Spares name hash nick now t =
    go (not (fits 50 name) || any_row (λ u. u.user_name == name) t.users) _
  where
    go :
        (b : Bool) (us : List User)
        → Ends {A = ℤ}
            (λ _ t'. SameRooms t t')
            (λ _. Unit {0})
            (if b
              then threw t
              else ran (pos t.next_user) (record t { users = us; next_user = suc t.next_user }))
    go true us = tt
    go false us = (refl, refl)

touch_user-Spares : (user : ℤ) → Spares (touch_user user)
unfolding touch_user
touch_user-Spares user now t = (refl, refl)

rename_user-Spares : (user : ℤ) (nick : Text) → Spares (rename_user user nick)
unfolding rename_user
rename_user-Spares user nick now t = go (any_row (λ u. u.user_id == user) t.users) (fits 16 nick) _
  where
    go :
        (a b : Bool) (us : List User)
        → Ends {A = Bool}
            (λ _ t'. SameRooms t t')
            (λ _. Unit {0})
            (if a then if b then ran true (record t { users = us }) else threw t else ran false t)
    go true true us = (refl, refl)
    go true false us = tt
    go false b us = (refl, refl)

-- A method of the services: whatever it starts from that is consistent, it ends so.
abbrev pub Steady {ℓ} : {A : Type ℓ} → Action Db A → Type 0
Steady m = (db : Db) → IsConsistent db.committed → Consistent (m db)

pub bind-Steady {ℓ} :
    {A B : Type ℓ} (m : Action Db A) (f : A → Action Db B)
    → Steady m
    → ((a : A) → Steady (f a))
    → Steady (m >>= f)
bind-Steady m f h k db c =
    Ends-bind (λ _ w. IsConsistent w.committed) (λ w. IsConsistent w.committed)
      (λ _ w. IsConsistent w.committed) m f db (h db c) (λ a w i. k a w i)

pub get-Steady {ℓ} :
    {A : Type ℓ} {B : Type ℓ} (f : Field A) (k : A → Action Db B)
    → ((a : A) → Steady (k a))
    → Steady (get f >>= k)
get-Steady absent k h db c = c
get-Steady mistyped k h db c = c
get-Steady (given a) k h db c = h a db c

pub if-Steady {ℓ} :
    {A : Type ℓ} (b : Bool) (m n : Action Db A) → Steady m → Steady n → Steady (if b then m else n)
if-Steady true m n h k = h
if-Steady false m n h k = k

pub find_by_username-Steady : (name : Text) → Steady (find_by_username name)
unfolding find_by_username
find_by_username-Steady name db = work-Consistent none _ db (λ w e.
    query-Closes (λ _. Unit {0}) (λ _ t. SameRooms db.committed t) db.committed (user_named name) _
      w e (λ w' e'. closed (user_named name db.committed) w' e'))
  where
    closed :
        (o : Option User) (w : Transaction)
        → w.tables ≡ db.committed
        → Closes (λ _. Unit {0}) (λ _ t. SameRooms db.committed t) (pure (close_found o) w)
    closed none w e = tt
    closed (some u) w e = (ap (λ t. t.rooms) e, ap (λ t. t.room_users) e)

pub create_user-Steady : (name hash nick : Text) → Steady (create_user name hash nick)
unfolding create_user
create_user-Steady name hash nick db =
    change-Consistent minus_one (insert_user name hash nick) db (insert_user-Spares name hash nick)

pub update_last_login-Steady : (user : ℤ) → Steady (update_last_login user)
unfolding update_last_login
update_last_login-Steady user db =
    change-Consistent false (touch_user user) db (touch_user-Spares user)

pub rename-Steady : (user : ℤ) (nick : Text) → Steady (update_user_nick_name user nick)
unfolding update_user_nick_name
rename-Steady user nick db =
    change-Consistent false (rename_user user nick) db (rename_user-Spares user nick)
