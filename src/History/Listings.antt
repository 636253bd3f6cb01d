-- ===== src/History/Listings.antt =====
-- `listRooms` of MatchingServer/src/service/room_service.cpp, and the committed tables.

use socket_communication.Common.{
  ℤ, minus_one, Ran, Action, ◌>>=◌, Ends, Ends-bind, Ends-catching, ran, threw, ◌≡◌, subst, inl,
  inr, List, [], ◌∷◌,
}
use socket_communication.Db.{Room, Tables, Db}
use socket_communication.Db.Atomicity.{Atomic, run_work-Atomic, query-Closes}
use socket_communication.RoomRepository.{find_all_open, get_player_count}
use socket_communication.RoomService.{count_each, list_rooms_counted, list_rooms}
use socket_communication.RoomRepository.Listing.{IsListing, find_all_open-IsListing}

abbrev pub Keeps {ℓ} : {A : Type ℓ} → Tables → Ran Db A → Type 0
Keeps t = Ends (λ a db. db.committed ≡ t) (λ db. db.committed ≡ t)

from_Atomic {ℓ} :
    {A : Type ℓ} (R : A → Type 0) (Q : A → Tables → Type 0) (t : Tables) (r : Ran Db A)
    → ((a : A) (t' : Tables) → Q a t' → t' ≡ t)
    → Atomic R Q t r
    → Keeps t r
from_Atomic R Q t (ran a db) h (inl (same, _)) = same
from_Atomic R Q t (ran a db) h (inr q) = h a db.committed q
from_Atomic R Q t (threw db) h e = e

get_player_count-Keeps : (room : ℤ) (db : Db) → Keeps db.committed (get_player_count room db)
unfolding get_player_count
get_player_count-Keeps room db =
    from_Atomic (λ a. Unit {0}) (λ a t'. t' ≡ db.committed) db.committed _ (λ a t' q. q)
      (run_work-Atomic _ _ minus_one _ db tt
        λ w e. query-Closes _ _ db.committed _ _ w e λ w' e'. e')

Keeps-bind {ℓ} :
    {A B : Type ℓ} (t : Tables) (m : Action Db A) (f : A → Action Db B) (db : Db)
    → Keeps t (m db)
    → ((a : A) (w : Db) → w.committed ≡ t → Keeps t (f a w))
    → Keeps t ((m >>= f) db)
Keeps-bind t m f db h k = Ends-bind (λ a w. w.committed ≡ t) _ (λ b w. w.committed ≡ t) m f db h k

count_each-Keeps :
    (t : Tables) (rs : List Room) (db : Db) → db.committed ≡ t → Keeps t (count_each rs db)
unfolding count_each
count_each-Keeps t [] db e = e
count_each-Keeps t (r ∷ rs) db e =
    Keeps-bind t (get_player_count r.room_id) _ db
      (subst (λ u. Keeps u (get_player_count r.room_id db)) e (get_player_count-Keeps r.room_id db))
      λ n w e'. Keeps-bind t (count_each rs) _ w (count_each-Keeps t rs w e') λ rest w' e''. e''

find_all_open-Keeps : (db : Db) → Keeps db.committed (find_all_open db)
find_all_open-Keeps db =
    from_Atomic (λ rows. rows ≡ []) (IsListing db.committed) db.committed _ (λ a t' q. q.0)
      (find_all_open-IsListing db)

list_rooms_counted-Keeps : (db : Db) → Keeps db.committed (list_rooms_counted db)
unfolding list_rooms_counted
list_rooms_counted-Keeps db =
    Keeps-bind db.committed find_all_open _ db (find_all_open-Keeps db) λ rooms w e.
      Keeps-bind db.committed (count_each rooms) _ w (count_each-Keeps db.committed rooms w e)
        λ counted w' e'. e'

-- Listing the open rooms changes no committed table, whatever fails.
pub list_rooms-Keeps : (db : Db) → Keeps db.committed (list_rooms db)
unfolding list_rooms
list_rooms-Keeps db =
    Ends-catching (λ a w. w.committed ≡ db.committed) (λ w. w.committed ≡ db.committed)
      (λ w. w.committed ≡ db.committed) list_rooms_counted _ db (list_rooms_counted-Keeps db)
      (λ w e. e)
