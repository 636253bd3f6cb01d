-- ===== src/GameSocket/Decimal.antt =====
-- `std::to_string` and `std::stoul`: a number that is printed is read back.

use Prim.Native.Nat.{◌/◌}
use socket_communication.Common.{
  if◌then◌else◌, ltb, leb, Bool-cases, All, digits_before, to_string, is_digit, read_digits,
  max_ulong, in_ulong, stoul, ℕ, zero, suc, ◌<◌, ◌≡◌, refl, ◌∙◌, inl, inr, true, none, some, List,
  [], ◌∷◌, arith,
}

abbrev pub AllDigits : List ℕ → Type 0
AllDigits = All (λ c. is_digit c ≡ true)

digits_before-AllDigits :
    (fuel n : ℕ) (out : List ℕ) → AllDigits out → AllDigits (digits_before fuel n out)
unfolding digits_before
digits_before-AllDigits zero n out h = h
digits_before-AllDigits (suc fuel) n out h = elim (Bool-cases (ltb n 10)) [
  | inl small ↦ rw small (ground arith, h)
  | inr big ↦ rw big (digits_before-AllDigits fuel (n / 10) _ (ground arith, h))
]

-- A number prints as decimal digits.
pub to_string-AllDigits : (n : ℕ) → AllDigits (to_string n)
unfolding to_string
to_string-AllDigits n = digits_before-AllDigits (suc n) n [] tt

read_digits-digits_before :
    (fuel n : ℕ) (out : List ℕ)
    → n < fuel
    → read_digits 0 (digits_before fuel n out) ≡ read_digits n out
unfolding digits_before read_digits
read_digits-digits_before zero n out h = absurd (omega arith)
read_digits-digits_before (suc fuel) n out h = elim (Bool-cases (ltb n 10)) [
  | inl small ↦ rw small (ground arith)
  | inr big ↦ rw big (read_digits-digits_before fuel (n / 10) _ (ground arith) ∙ ground arith)
]

-- The text that `to_string` makes is not empty.
abbrev pub IsNonempty : List ℕ → Type 0
IsNonempty [] = ⊥
IsNonempty (c ∷ t) = Unit {0}

digits_before-IsNonempty :
    (fuel n : ℕ) (out : List ℕ) → IsNonempty out → IsNonempty (digits_before fuel n out)
unfolding digits_before
digits_before-IsNonempty zero n out h = h
digits_before-IsNonempty (suc fuel) n out h = elim (Bool-cases (ltb n 10)) [
  | inl small ↦ rw small tt
  | inr big ↦ rw big (digits_before-IsNonempty fuel (n / 10) _ tt)
]

to_string-IsNonempty : (n : ℕ) → IsNonempty (to_string n)
unfolding to_string digits_before
to_string-IsNonempty n = elim (Bool-cases (ltb n 10)) [
  | inl small ↦ rw small tt
  | inr big ↦ rw big (digits_before-IsNonempty n (n / 10) _ tt)
]

-- What begins with a digit is read with neither spaces nor a sign.
stoul-digits : (t : List ℕ) → IsNonempty t → AllDigits t → stoul t ≡ in_ulong (read_digits 0 t)
unfolding stoul
stoul-digits [] h d = elim h [ ]
stoul-digits (c ∷ t) h d = ground (arith, d.0)

-- `stoul` reads back what `to_string` prints, if the number is an `unsigned long`, and throws if it
-- is larger.
pub stoul-to_string : (n : ℕ) → stoul (to_string n) ≡ (if leb n max_ulong then some n else none)
stoul-to_string n =
    stoul-digits (to_string n) (to_string-IsNonempty n) (to_string-AllDigits n) ∙ whole
  where
    whole : in_ulong (read_digits 0 (to_string n)) ≡ (if leb n max_ulong then some n else none)
    whole =
        unfold to_string in
        rw (read_digits-digits_before (suc n) n [] (omega arith))
          (unfold read_digits in unfold in_ulong in refl)
