-- ===== src/DbPool/Slots.antt =====
-- The two vectors of DbPool (MatchingServer/src/util/db_pool.h), and the search among them.

use mathlib.Core.List.Perm
use socket_communication.Common.{
  ◌==◌, nat_eq, int_eq, bytes_eq, string_eq, Bool-cases, length, any_row, All, ℕ, suc, ◌≤◌, ◌<◌,
  ◌≡◌, refl, ap, inl, inr, Bool, true, false, List, [], ◌∷◌, Perm, arith,
}
use socket_communication.DbPool.{
  Link, DbPool, Search, keep_slot, scan, release, found, failed, none_free,
}

-- The connections in use.
unfoldable pub leased : List ℕ → List Bool → List ℕ
leased [] us = []
leased (c ∷ cs) [] = []
leased (c ∷ cs) (true ∷ us) = c ∷ leased cs us
leased (c ∷ cs) (false ∷ us) = leased cs us

abbrev pub held : DbPool → List ℕ
held p = leased p.connections p.in_use

-- Every object is one connection's only: identities are distinct and below the next one.
abbrev pub Distinct : List ℕ → Type 0
Distinct [] = Unit {0}
Distinct (c ∷ cs) = (any_row (λ d. d == c) cs ≡ false) × Distinct cs

abbrev pub Below : ℕ → List ℕ → Type 0
Below n = All (λ c. c < n)

pub record IsValid (p : DbPool) : Type 0 where
  pub parallel : length p.connections ≡ length p.in_use
  pub distinct : Distinct p.connections
  pub below : Below p.next_conn p.connections

pub Below-mono : {m n : ℕ} (cs : List ℕ) → m ≤ n → Below m cs → Below n cs
Below-mono [] h b = tt
Below-mono (c ∷ cs) h b = (omega arith, Below-mono cs h b.1)

pub fresh_absent : (n : ℕ) (cs : List ℕ) → Below n cs → any_row (λ d. d == n) cs ≡ false
unfolding any_row
fresh_absent n [] b = refl
fresh_absent n (c ∷ cs) b = ground (arith, fresh_absent n cs b.1)

-- What a search that succeeds does to the two vectors: connection `d` goes from idle to leased, and
-- giving it back restores the leases.
pub record Took (n d : ℕ) (cs cs' : List ℕ) (us us' : List Bool) (n' : ℕ) : Type 0 where
  pub parallel : length cs' ≡ length us'
  pub distinct : Distinct cs'
  pub below : Below n' cs'
  pub grows : n ≤ n'
  pub lends : Perm (leased cs' us') (d ∷ leased cs us)
  pub restores : leased cs' (release d cs' us') ≡ leased cs us
  pub listed : any_row (λ c. c == d) cs' ≡ true
  pub keeps : (c : ℕ) → any_row (λ d. d == c) cs ≡ false → c < n → any_row (λ d. d == c) cs' ≡ false

abbrev pub Found : Link → ℕ → List ℕ → List Bool → Search → Type 0
Found l n cs us (found d cs' us' n') = Took n d cs cs' us us' n'
Found l n cs us failed = Unit {0}
Found l n cs us none_free = Unit {0}

module _ (l : Link) (n c : ℕ) (cs : List ℕ) (us : List Bool) where
  head_kept :
      length cs ≡ length us
      → Distinct (c ∷ cs)
      → Below n (c ∷ cs)
      → Took n c (c ∷ cs) (c ∷ cs) (false ∷ us) (true ∷ us) n
  unfolding leased release any_row
  head_kept e d b = record {
    parallel = omega (arith, ap suc e);
    distinct = d;
    below = b;
    grows = omega arith;
    lends = Perm.refl _;
    restores = ground arith;
    listed = ground arith;
    keeps = λ x a h. a;
  }

  head_replaced :
      length cs ≡ length us
      → Distinct (c ∷ cs)
      → Below n (c ∷ cs)
      → Took n n (c ∷ cs) (n ∷ cs) (false ∷ us) (true ∷ us) (suc n)
  unfolding leased release any_row
  head_replaced e d b = record {
    parallel = omega (arith, ap suc e);
    distinct = (fresh_absent n cs b.1, d.1);
    below = (omega arith, Below-mono {m = n} {n = suc n} cs (omega arith) b.1);
    grows = omega arith;
    lends = Perm.refl _;
    restores = ground arith;
    listed = ground arith;
    keeps = λ x a h. ground arith;
  }

  tail-Found :
      (s : Search)
      → Distinct (c ∷ cs)
      → Below n (c ∷ cs)
      → Found l n cs us s
      → Found l n (c ∷ cs) (true ∷ us) (keep_slot c true s)
  unfolding leased release any_row
  tail-Found (found d cs' us' n') ds b t = record {
    parallel = omega (arith, t.parallel);
    distinct = (t.keeps c ds.0 b.0, t.distinct);
    below = (omega (arith, t.grows), t.below);
    grows = t.grows;
    lends = Perm.trans (Perm.cons c t.lends) (Perm.swap d c (leased cs us));
    restores = ground (arith, t.restores, t.listed, t.keeps c ds.0 b.0);
    listed = ground (arith, t.listed);
    keeps = λ x a h. ground (arith, t.keeps x);
  }
  tail-Found failed ds b t = tt
  tail-Found none_free ds b t = tt

pub scan-Found :
    (l : Link) (n : ℕ) (cs : List ℕ) (us : List Bool)
    → length cs ≡ length us
    → Distinct cs
    → Below n cs
    → Found l n cs us (scan l n cs us)
unfolding scan
scan-Found l n [] us e d b = tt
scan-Found l n (c ∷ cs) [] e d b = tt
scan-Found l n (c ∷ cs) (true ∷ us) e d b =
    tail-Found l n c cs us _ d b (scan-Found l n cs us (omega (arith, e)) d.1 b.1)
scan-Found l n (c ∷ cs) (false ∷ us) e d b = elim (Bool-cases (l.is_open c)) [
  | inl up ↦ rw up (head_kept l n c cs us (omega (arith, e)) d b)
  | inr down ↦ rw down (elim (Bool-cases l.connects) [
    | inl can ↦ rw can (head_replaced l n c cs us (omega (arith, e)) d b)
    | inr cannot ↦ rw cannot tt
  ])
]
