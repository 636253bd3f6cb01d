-- ===== src/DbPool/Start.antt =====
-- The constructor of DbPool in MatchingServer/src/util/db_pool.cpp.

use socket_communication.Common.{
  ◌==◌, nat_eq, int_eq, bytes_eq, string_eq, length, any_row, All, ℕ, zero, suc, ◌+◌, ◌≤◌, ◌≡◌,
  refl, ap, false, List, [], ◌∷◌, arith,
}
use socket_communication.DbPool.{fill, new_pool}
use socket_communication.DbPool.Slots.{IsValid, leased, held, Distinct, Below}

above_absent : (n : ℕ) (cs : List ℕ) → All (λ c. suc n ≤ c) cs → any_row (λ d. d == n) cs ≡ false
unfolding any_row
above_absent n [] b = refl
above_absent n (c ∷ cs) b = ground (arith, above_absent n cs b.1)

above_mono : (n : ℕ) (cs : List ℕ) → All (λ c. suc n ≤ c) cs → All (λ c. n ≤ c) cs
above_mono n [] b = tt
above_mono n (c ∷ cs) b = (omega arith, above_mono n cs b.1)

length-fill : (k n : ℕ) → length (fill k n).0 ≡ k
unfolding fill
length-fill zero n = refl
length-fill (suc k) n = ap suc (length-fill k (suc n))

fill-Fresh :
    (k n m : ℕ)
    → n + k ≡ m
    → let (cs, us) = fill k n in
      (length cs ≡ length us) × Distinct cs × Below m cs × All (λ c. n ≤ c) cs × (leased cs us ≡ [])
unfolding fill leased
fill-Fresh zero n m e = (refl, tt, tt, tt, refl)
fill-Fresh (suc k) n m e =
    let (p, d, b, a, l) = fill-Fresh k (suc n) m (omega (arith, e)) in
    (
      omega (arith, p),
      (above_absent n (fill k (suc n)).0 a, d),
      (omega (arith, e), b),
      (omega arith, above_mono n (fill k (suc n)).0 a),
      l,
    )

-- The constructor's pool is valid, has `size` connections, and none of them is in use.
pub new_pool-IsValid :
    (size : ℕ)
    → IsValid (new_pool size)
      × (length (new_pool size).connections ≡ size)
      × (held (new_pool size) ≡ [])
unfolding new_pool
new_pool-IsValid size =
    let (p, d, b, a, l) = fill-Fresh size 0 size (omega arith) in
    (record { parallel = p; distinct = d; below = b }, length-fill size 0, l)
