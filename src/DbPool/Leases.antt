-- ===== src/DbPool/Leases.antt =====
-- `get_connection` and `return_connection` of MatchingServer/src/util/db_pool.cpp.

use mathlib.Core.List.{perm_append_singleton}
use socket_communication.Common.{
  ◌==◌, nat_eq, int_eq, bytes_eq, string_eq, Bool-cases, length, any_row, Ran, Ends, ℕ, suc, ◌≡◌,
  refl, ap, inl, inr, Bool, true, false, List, [], ◌∷◌, ◌++◌, Perm, arith,
}
use socket_communication.DbPool.{
  Link, DbPool, Search, scan, grow, take_found, get_connection, release, return_connection, found,
  failed, none_free,
}
use socket_communication.DbPool.Slots.{IsValid, leased, held, Distinct, Below, Found, scan-Found}

module _ (n : ℕ) where
  leased-grown :
      (cs : List ℕ) (us : List Bool)
      → length cs ≡ length us
      → leased (cs ++ n ∷ []) (us ++ true ∷ []) ≡ leased cs us ++ n ∷ []
  unfolding leased
  leased-grown [] [] e = refl
  leased-grown [] (u ∷ us) e = absurd (omega (arith, e))
  leased-grown (c ∷ cs) [] e = absurd (omega (arith, e))
  leased-grown (c ∷ cs) (true ∷ us) e = ap (◌∷◌ c) (leased-grown cs us (omega (arith, e)))
  leased-grown (c ∷ cs) (false ∷ us) e = leased-grown cs us (omega (arith, e))

  leased-regained :
      (cs : List ℕ) (us : List Bool)
      → length cs ≡ length us
      → Below n cs
      → leased (cs ++ n ∷ []) (release n (cs ++ n ∷ []) (us ++ true ∷ [])) ≡ leased cs us
  unfolding leased release
  leased-regained [] [] e b = ground arith
  leased-regained [] (u ∷ us) e b = absurd (omega (arith, e))
  leased-regained (c ∷ cs) [] e b = absurd (omega (arith, e))
  leased-regained (c ∷ cs) (true ∷ us) e b =
      ground (arith, leased-regained cs us (omega (arith, e)) b.1)
  leased-regained (c ∷ cs) (false ∷ us) e b =
      ground (arith, leased-regained cs us (omega (arith, e)) b.1)

  length-grown {ℓ} : {A : Type ℓ} (x : A) (xs : List A) → length (xs ++ x ∷ []) ≡ suc (length xs)
  length-grown x [] = refl
  length-grown x (y ∷ xs) = ap suc (length-grown x xs)

  Distinct-grown : (cs : List ℕ) → Distinct cs → Below n cs → Distinct (cs ++ n ∷ [])
  unfolding any_row
  Distinct-grown [] d b = (refl, tt)
  Distinct-grown (c ∷ cs) d b = (absent cs d.0, Distinct-grown cs d.1 b.1)
    where
      absent :
          (xs : List ℕ)
          → any_row (λ x. x == c) xs ≡ false
          → any_row (λ x. x == c) (xs ++ n ∷ []) ≡ false
      absent [] h = ground arith
      absent (x ∷ xs) h = ground (arith, absent xs)

  Below-grown : (cs : List ℕ) → Below n cs → Below (suc n) (cs ++ n ∷ [])
  Below-grown [] b = (omega arith, tt)
  Below-grown (c ∷ cs) b = (omega arith, Below-grown cs b.1)

-- A lease: the pool stays valid, exactly one more connection is in use, and giving it back restores
-- the connections in use. A call that throws leaves the pool as it was.
abbrev pub Lends : DbPool → Ran DbPool ℕ → Type 0
Lends p =
    Ends
      (λ c p'. IsValid p' × Perm (held p') (c ∷ held p) × (held (return_connection c p') ≡ held p))
      (λ p'. p' ≡ p)

grow-Lends : (l : Link) (p : DbPool) → IsValid p → Lends p (grow l p)
unfolding grow return_connection
grow-Lends l p v = elim (Bool-cases l.connects) [
  | inl can ↦ rw can (
    record {
      parallel = omega (arith, length-grown 0 n cs, length-grown 0 true p.in_use, v.parallel);
      distinct = Distinct-grown n cs v.distinct v.below;
      below = Below-grown n cs v.below;
    },
    rw (leased-grown n cs p.in_use v.parallel) (perm_append_singleton n (held p)),
    leased-regained n cs p.in_use v.parallel v.below,
  )
  | inr cannot ↦ rw cannot refl
]
  where
    open p use {connections as cs, next_conn as n}

take_found-Lends :
    (l : Link) (p : DbPool) (s : Search)
    → IsValid p
    → Found l p.next_conn p.connections p.in_use s
    → Lends p (take_found l p s)
unfolding take_found return_connection
take_found-Lends l p (found d cs us n) v t =
    (record { parallel = t.parallel; distinct = t.distinct; below = t.below }, t.lends, t.restores)
take_found-Lends l p failed v t = refl
take_found-Lends l p none_free v t = grow-Lends l p v

-- From a valid pool `get_connection` either throws and leaves the pool as it was, or lends a
-- connection: the pool stays valid, the connections in use are the former ones and the new one, and
-- `return_connection` brings the former ones back.
pub get_connection-Lends : (l : Link) (p : DbPool) → IsValid p → Lends p (get_connection l p)
unfolding get_connection
get_connection-Lends l p v =
    take_found-Lends l p (scan l p.next_conn p.connections p.in_use) v
      (scan-Found l p.next_conn p.connections p.in_use v.parallel v.distinct v.below)

length-release :
    (c : ℕ) (cs : List ℕ) (us : List Bool)
    → length cs ≡ length us
    → length cs ≡ length (release c cs us)
unfolding release
length-release c [] us e = e
length-release c (d ∷ cs) [] e = absurd (omega (arith, e))
length-release c (d ∷ cs) (u ∷ us) e = ground (arith, length-release c cs us)

pub return_connection-IsValid : (c : ℕ) (p : DbPool) → IsValid p → IsValid (return_connection c p)
unfolding return_connection
return_connection-IsValid c p v = record {
  parallel = length-release c p.connections p.in_use v.parallel;
  distinct = v.distinct;
  below = v.below;
}
