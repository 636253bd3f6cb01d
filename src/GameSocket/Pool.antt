-- ===== src/GameSocket/Pool.antt =====
-- GameSocketServer/src/db/db_pool.cpp: the pool of GameSocketServer, its loops over the indices of the
-- two vectors as they stand. Its state is that of the matching server's pool.

pub mod Same
pub mod Agree
use socket_communication.Common.{
  if◌then◌else◌, ◌==◌, nat_eq, int_eq, bytes_eq, string_eq, length, Ran, Action, ran, threw, ℕ,
  zero, suc, Bool, true, false, Option, none, some, List, [], ◌∷◌, ◌++◌,
}
use socket_communication.Db.{room_status_eq, game_status_eq}
use socket_communication.DbPool.{Link, DbPool}

-- Reading and writing at an index of a vector.
unfoldable pub at {ℓ} : {A : Type ℓ} → ℕ → List A → Option A
at i [] = none
at zero (a ∷ xs) = some a
at (suc i) (a ∷ xs) = at i xs

unfoldable pub set_at {ℓ} : {A : Type ℓ} → ℕ → A → List A → List A
set_at i b [] = []
set_at zero b (a ∷ xs) = b ∷ xs
set_at (suc i) b (a ∷ xs) = a ∷ set_at i b xs

-- The loop of the constructor: `left` connections to make.
unfoldable pub open_connections : Link → ℕ → Action DbPool (Unit {0})
open_connections l zero p = ran tt p
open_connections l (suc left) p =
    if l.connects
    then open_connections l left (record p {
      connections = p.connections ++ p.next_conn ∷ [];
      in_use = p.in_use ++ false ∷ [];
      next_conn = suc p.next_conn;
    })
    else threw p

abbrev pub empty_pool : DbPool
empty_pool = record { connections = []; in_use = []; next_conn = 0 }

unfoldable pub construct : Link → ℕ → Ran DbPool (Unit {0})
unfolding open_connections
construct l size = open_connections l size empty_pool

abbrev pub mark : ℕ → Bool → DbPool → DbPool
mark i u p = record p { in_use = set_at i u p.in_use }

-- The body of the loop where `in_use_[i]` is false, for the connection `c` at `i`.
unfoldable pub use_slot : Link → ℕ → ℕ → DbPool → Ran DbPool ℕ
unfolding set_at
use_slot l i c p =
    let p1 : DbPool = mark i true p in
    if l.is_open c
    then ran c p1
    else if l.connects
    then ran p1.next_conn (record p1 {
      connections = set_at i p1.next_conn p1.connections;
      next_conn = suc p1.next_conn;
    })
    else threw (mark i false p1)

-- The code behind the loop.
unfoldable pub add_connection : Link → Action DbPool ℕ
add_connection l p =
    if l.connects
    then ran p.next_conn (record p {
      connections = p.connections ++ p.next_conn ∷ [];
      in_use = p.in_use ++ true ∷ [];
      next_conn = suc p.next_conn;
    })
    else threw p

-- The loop of `get_connection` at an index, with `left` indices to come.
unfoldable pub get_from : Link → ℕ → ℕ → Action DbPool ℕ
unfolding use_slot add_connection at
get_from l zero i p = add_connection l p
get_from l (suc left) i p =
    let rest = get_from l left (suc i) p in
    elim (at i p.in_use) [
      | none ↦ rest
      | some u ↦
          if u then rest else elim (at i p.connections) [ none ↦ rest | some c ↦ use_slot l i c p ]
    ]

unfoldable pub get_connection : Link → Action DbPool ℕ
unfolding get_from
get_connection l p = get_from l (length p.connections) 0 p

-- The loop of `return_connection` at an index, with `left` indices to come.
unfoldable pub return_from : ℕ → ℕ → ℕ → DbPool → DbPool
unfolding at set_at
return_from conn zero i p = p
return_from conn (suc left) i p =
    let rest = return_from conn left (suc i) p in
    elim (at i p.connections) [ none ↦ rest | some c ↦ if c == conn then mark i false p else rest ]

unfoldable pub return_connection : ℕ → DbPool → DbPool
unfolding return_from
return_connection conn p = return_from conn (length p.connections) 0 p
