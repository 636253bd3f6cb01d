-- ===== src/GameSocket/Find.antt =====
-- `find` and `substr` of `std::string` on a text that goes on.

use socket_communication.Common.{
  ◌==◌, nat_eq, int_eq, bytes_eq, string_eq, length, All, drop, take, substr, starts_with, find_at,
  find, ℕ, zero, suc, ◌+◌, ◌≤◌, ◌≡◌, refl, ap, ◌∙◌, true, false, ◌&&◌, some, List, [], ◌∷◌, ◌++◌,
  arith,
}

pub length-append {ℓ} : {A : Type ℓ} (xs ys : List A) → length (xs ++ ys) ≡ length xs + length ys
length-append [] ys = omega arith
length-append (x ∷ xs) ys = ground (arith, length-append xs ys)

pub drop-append {ℓ} :
    {A : Type ℓ} (n : ℕ) (xs ys : List A) → n ≤ length xs → drop n (xs ++ ys) ≡ drop n xs ++ ys
unfolding drop
drop-append zero xs ys h = refl
drop-append (suc n) [] ys h = absurd (omega (arith, h))
drop-append (suc n) (x ∷ xs) ys h = drop-append n xs ys (omega (arith, h))

pub take-append {ℓ} :
    {A : Type ℓ} (n : ℕ) (xs ys : List A) → n ≤ length xs → take n (xs ++ ys) ≡ take n xs
unfolding take
take-append zero xs ys h = refl
take-append (suc n) [] ys h = absurd (omega (arith, h))
take-append (suc n) (x ∷ xs) ys h = ap (◌∷◌ x) (take-append n xs ys (omega (arith, h)))

pub length-drop {ℓ} :
    {A : Type ℓ} (n : ℕ) (xs : List A) → n ≤ length xs → n + length (drop n xs) ≡ length xs
unfolding drop
length-drop zero xs h = omega arith
length-drop (suc n) [] h = absurd (omega (arith, h))
length-drop (suc n) (x ∷ xs) h = omega (arith, length-drop n xs (omega (arith, h)))

pub drop_all {ℓ} : {A : Type ℓ} (xs ys : List A) → drop (length xs) (xs ++ ys) ≡ ys
unfolding drop
drop_all [] ys = refl
drop_all (x ∷ xs) ys = drop_all xs ys

pub take_all {ℓ} : {A : Type ℓ} (xs ys : List A) → take (length xs) (xs ++ ys) ≡ xs
unfolding take
take_all [] ys = refl
take_all (x ∷ xs) ys = ap (◌∷◌ x) (take_all xs ys)

pub substr-append :
    (from count : ℕ) (t r : List ℕ)
    → from + count ≤ length t
    → substr from count (t ++ r) ≡ substr from count t
unfolding substr
substr-append from count t r h =
    rw (drop-append from t r (omega arith))
      (take-append count (drop from t) r (omega (arith, h, length-drop from t (omega arith))))

starts_with-append :
    (w t r : List ℕ) → length w ≤ length t → starts_with w (t ++ r) ≡ starts_with w t
unfolding starts_with
starts_with-append [] t r h = refl
starts_with-append (c ∷ w) [] r h = absurd (omega (arith, h))
starts_with-append (c ∷ w) (d ∷ t) r h =
    ap (λ b. c == d && b) (starts_with-append w t r (omega (arith, h)))

starts_with-le : (w t : List ℕ) → starts_with w t ≡ true → length w ≤ length t
unfolding starts_with
starts_with-le [] t h = omega arith
starts_with-le (c ∷ w) [] h = cc
starts_with-le (c ∷ w) (d ∷ t) h = ground (arith, starts_with-le w t)

-- An occurrence lies in the text.
find_at-le :
    (w : List ℕ) (i : ℕ) (t : List ℕ) (k : ℕ)
    → find_at w i t ≡ some k
    → (i ≤ k) × (k + length w ≤ i + length t)
unfolding find_at
find_at-le w i [] k h = ground (arith, starts_with-le w [])
find_at-le w i (c ∷ t) k h = ground (arith, starts_with-le w (c ∷ t), find_at-le w (suc i) t k)

-- The first occurrence stays the first when the text goes on.
find_at-append :
    (w : List ℕ) (i : ℕ) (t r : List ℕ) (k : ℕ)
    → find_at w i t ≡ some k
    → find_at w i (t ++ r) ≡ some k
unfolding find_at
find_at-append w i [] [] k h = h
find_at-append w i [] (d ∷ r) k h =
    ground (arith, starts_with-append w [] (d ∷ r), starts_with-le w [])
find_at-append w i (c ∷ t) r k h = ground (
  arith,
  starts_with-append w (c ∷ t) r,
  starts_with-le w (c ∷ t),
  find_at-append w (suc i) t r k,
  find_at-le w (suc i) t k,
)

pub find-le :
    (w : List ℕ) (from : ℕ) (t : List ℕ) (k : ℕ)
    → from ≤ length t
    → find w from t ≡ some k
    → (from ≤ k) × (k + length w ≤ length t)
unfolding find
find-le w from t k l h =
    let (lo, hi) = find_at-le w from (drop from t) k h in
    (lo, omega (arith, hi, length-drop from t l))

pub find-append :
    (w : List ℕ) (from : ℕ) (t r : List ℕ) (k : ℕ)
    → from ≤ length t
    → find w from t ≡ some k
    → find w from (t ++ r) ≡ some k
unfolding find
find-append w from t r k l h =
    rw (drop-append from t r l) (find_at-append w from (drop from t) r k h)

-- No line end begins in a text without its first byte.
abbrev pub NoReturn : List ℕ → Type 0
NoReturn = All (λ c. (13 == c) ≡ false)

pub find_at-skip :
    (w : List ℕ) (i : ℕ) (t r : List ℕ)
    → NoReturn t
    → find_at (13 ∷ w) i (t ++ r) ≡ find_at (13 ∷ w) (i + length t) r
unfolding find_at starts_with
find_at-skip w i [] r h = ap (λ k. find_at (13 ∷ w) k r) (omega arith)
find_at-skip w i (c ∷ t) r (e, h) =
    rw e refl ∙ find_at-skip w (suc i) t r h ∙ ap (λ k. find_at (13 ∷ w) k r) (omega arith)
