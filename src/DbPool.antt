-- ===== src/DbPool.antt =====
-- MatchingServer/src/util/db_pool.cpp: the pool of database connections. A connection object is
-- known by a number, its identity as a `shared_ptr`; the two vectors stay parallel lists. Whether a
-- connection is still open, and whether a new one can be made, is the link's to say.

pub mod Slots
pub mod Leases
pub mod Start
use socket_communication.Common.{
  ℕ, zero, suc, ◌+◌, Bool, true, false, List, [], ◌∷◌, ◌++◌, if◌then◌else◌, ◌==◌, nat_eq, Ran, ran,
  threw, Action,
}

-- The database as the program meets it: which connections are open, whether connecting works, and
-- the time that CURRENT_TIMESTAMP reads.
pub record Link : Type 0 where
  pub is_open : ℕ → Bool
  pub connects : Bool
  pub now : ℕ

pub record DbPool : Type 0 where
  pub connections : List ℕ
  pub in_use : List Bool
  pub next_conn : ℕ

-- How the search for an idle connection ends.
pub data Search : Type 0 where
  found : ℕ → List ℕ → List Bool → ℕ → Search
  failed : Search
  none_free : Search

abbrev pub keep_slot : ℕ → Bool → Search → Search
keep_slot c u (found d cs us n) = found d (c ∷ cs) (u ∷ us) n
keep_slot c u failed = failed
keep_slot c u none_free = none_free

-- The loop of `get_connection`: the first slot not in use, reconnected if it has been closed.
unfoldable pub scan : Link → ℕ → List ℕ → List Bool → Search
scan l n [] us = none_free
scan l n (c ∷ cs) [] = none_free
scan l n (c ∷ cs) (u ∷ us) =
    let rest = keep_slot c u (scan l n cs us) in
    if u
    then rest
    else if l.is_open c
    then found c (c ∷ cs) (true ∷ us) n
    else if l.connects
    then found n (n ∷ cs) (true ∷ us) (suc n)
    else failed

-- No idle connection: a new one is added, in use.
unfoldable pub grow : Link → Action DbPool ℕ
grow l p =
    if l.connects
    then ran p.next_conn (record p {
      connections = p.connections ++ p.next_conn ∷ [];
      in_use = p.in_use ++ true ∷ [];
      next_conn = suc p.next_conn;
    })
    else threw p

unfoldable pub take_found : Link → DbPool → Search → Ran DbPool ℕ
unfolding grow
take_found l p (found c cs us n) = ran c (record p { connections = cs; in_use = us; next_conn = n })
take_found l p failed = threw p
take_found l p none_free = grow l p

unfoldable pub get_connection : Link → Action DbPool ℕ
unfolding scan take_found
get_connection l p = take_found l p (scan l p.next_conn p.connections p.in_use)

-- The loop of `return_connection`.
unfoldable pub release : ℕ → List ℕ → List Bool → List Bool
release c [] us = us
release c (d ∷ cs) [] = []
release c (d ∷ cs) (u ∷ us) = if d == c then false ∷ us else u ∷ release c cs us

unfoldable pub return_connection : ℕ → DbPool → DbPool
unfolding release
return_connection c p = record p { in_use = release c p.connections p.in_use }

-- The loop of the constructor: `size` connections, none in use.
unfoldable pub fill : ℕ → ℕ → List ℕ × List Bool
fill zero n = ([], [])
fill (suc k) n = let (cs, us) = fill k (suc n) in (n ∷ cs, false ∷ us)

unfoldable pub new_pool : ℕ → DbPool
unfolding fill
new_pool size =
    let (cs, us) = fill size 0 in record { connections = cs; in_use = us; next_conn = size }
