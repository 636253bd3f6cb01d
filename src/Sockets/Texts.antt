-- ===== src/Sockets/Texts.antt =====
-- Pieces of texts.

use socket_communication.Common.{
  length, is_empty, drop, take, ℕ, zero, suc, ◌+◌, ◌-◌, ◌≤◌, ◌<◌, ◌≡◌, refl, sym, ap, ◌∙◌, true,
  false, List, [], ◌∷◌, ◌++◌, arith,
}
use socket_communication.Db.{Text}

module _ {ℓ} {A : Type ℓ} where
  pub take-drop : (n : ℕ) (xs : List A) → take n xs ++ drop n xs ≡ xs
  unfolding take drop
  take-drop zero xs = refl
  take-drop (suc n) [] = refl
  take-drop (suc n) (x ∷ xs) = ap (◌∷◌ x) (take-drop n xs)

  pub drop-drop : (m n : ℕ) (xs : List A) → drop n (drop m xs) ≡ drop (m + n) xs
  unfolding drop
  drop-drop zero n xs = let e : n ≡ 0 + n = omega arith in ap (λ k. drop k xs) e
  drop-drop (suc m) zero [] = let e : suc m ≡ suc m + 0 = omega arith in ap (λ k. drop k []) e
  drop-drop (suc m) (suc n) [] =
      let e : suc (m + suc n) ≡ suc m + suc n = omega arith in ap (λ k. drop k []) e
  drop-drop (suc m) n (x ∷ xs) =
      let e : suc (m + n) ≡ suc m + n = omega arith in
      drop-drop m n xs ∙ ap (λ k. drop k (x ∷ xs)) e

  pub take_nil : (n : ℕ) → take {A = A} n [] ≡ []
  unfolding take
  take_nil zero = refl
  take_nil (suc n) = refl

  pub take-take : (n m : ℕ) (xs : List A) → take n xs ++ take m (drop n xs) ≡ take (n + m) xs
  unfolding take drop
  take-take zero m xs = let e : m ≡ 0 + m = omega arith in ap (λ k. take k xs) e
  take-take (suc n) m [] = take_nil m ∙ sym (take_nil (suc n + m))
  take-take (suc n) m (x ∷ xs) =
      let e : suc (n + m) ≡ suc n + m = omega arith in
      ap (◌∷◌ x) (take-take n m xs) ∙ ap (λ k. take k (x ∷ xs)) e

  pub drop_all : (xs : List A) → drop (length xs) xs ≡ []
  unfolding drop
  drop_all [] = refl
  drop_all (x ∷ xs) = drop_all xs

pub length-take : (n : ℕ) (t : Text) → n ≤ length t → length (take n t) ≡ n
unfolding take
length-take zero t l = refl
length-take (suc n) [] l = absurd (omega (arith, l))
length-take (suc n) (b ∷ t) l = ap suc (length-take n t (omega (arith, l)))

pub length-append : (s t : Text) → length (s ++ t) ≡ length s + length t
length-append [] t = omega arith
length-append (b ∷ s) t = omega (arith, length-append s t)

pub length-drop : (n : ℕ) (t : Text) → n ≤ length t → length (drop n t) ≡ length t - n
unfolding drop
length-drop zero t l = omega arith
length-drop (suc n) [] l = absurd (omega (arith, l))
length-drop (suc n) (b ∷ t) l = omega (arith, length-drop n t (omega (arith, l)), l)

pub is_empty-length : (t : Text) → is_empty t ≡ false → 0 < length t
is_empty-length [] e = absurd (ground (arith, e))
is_empty-length (b ∷ t) e = omega arith

pub empty-length : (t : Text) → is_empty t ≡ true → length t ≡ 0
empty-length [] e = refl
empty-length (b ∷ t) e = absurd (ground (arith, e))
