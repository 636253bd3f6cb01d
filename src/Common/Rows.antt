-- ===== src/Common/Rows.antt =====
-- Lists of rows: the operations by which the SQL statements and the C++ loops walk them.

use Prim.Native.Nat.{ℕ, ◌≤◌, suc, ◌+◌}
use mathlib.Core.Path.{◌≡◌, refl}
use mathlib.Core.Bool.{Bool, true, false}
use mathlib.Core.Option.{Option, none, some}
use mathlib.Core.List.{List, [], ◌∷◌, ◌++◌}
use native.Mathlib.Omega.{arith}
use socket_communication.Common.Tests.{if◌then◌else◌}

module _ {ℓ} {A : Type ℓ} where
  abbrev pub length : List A → ℕ
  length [] = 0
  length (x ∷ xs) = suc (length xs)

  abbrev pub is_empty : List A → Bool
  is_empty [] = true
  is_empty (x ∷ xs) = false

  -- The rows that a WHERE clause keeps, in table order.
  unfoldable pub where_rows : (A → Bool) → List A → List A
  where_rows p [] = []
  where_rows p (x ∷ xs) = let rest = where_rows p xs in if p x then x ∷ rest else rest

  -- DELETE … WHERE.
  unfoldable pub delete_rows : (A → Bool) → List A → List A
  delete_rows p [] = []
  delete_rows p (x ∷ xs) = let rest = delete_rows p xs in if p x then rest else x ∷ rest

  -- UPDATE … SET … WHERE.
  unfoldable pub update_rows : (A → Bool) → (A → A) → List A → List A
  update_rows p f [] = []
  update_rows p f (x ∷ xs) = (if p x then f x else x) ∷ update_rows p f xs

  -- The first row of a result, if there is one.
  unfoldable pub first_row : (A → Bool) → List A → Option A
  first_row p [] = none
  first_row p (x ∷ xs) = if p x then some x else first_row p xs

  -- SELECT COUNT(*).
  unfoldable pub count_rows : (A → Bool) → List A → ℕ
  count_rows p [] = 0
  count_rows p (x ∷ xs) = let rest = count_rows p xs in if p x then suc rest else rest

  unfoldable pub any_row : (A → Bool) → List A → Bool
  any_row p [] = false
  any_row p (x ∷ xs) = if p x then true else any_row p xs

  abbrev pub All {κ} : (A → Type κ) → List A → Type κ
  All P [] = Unit
  All P (x ∷ xs) = P x × All P xs

  pub count_rows-append :
      (p : A → Bool) (xs ys : List A) → count_rows p (xs ++ ys) ≡ count_rows p xs + count_rows p ys
  unfolding count_rows
  count_rows-append p [] ys = omega arith
  count_rows-append p (x ∷ xs) ys = ground (arith, count_rows-append p xs ys)

  pub count_rows_zero_of_any :
      (p : A → Bool) (xs : List A) → any_row p xs ≡ false → count_rows p xs ≡ 0
  unfolding count_rows any_row
  count_rows_zero_of_any p [] h = refl
  count_rows_zero_of_any p (x ∷ xs) h = ground (arith, count_rows_zero_of_any p xs)

  pub any_row_of_count_zero :
      (p : A → Bool) (xs : List A) → count_rows p xs ≡ 0 → any_row p xs ≡ false
  unfolding count_rows any_row
  any_row_of_count_zero p [] h = refl
  any_row_of_count_zero p (x ∷ xs) h = ground (arith, any_row_of_count_zero p xs)

module _ {ℓ} {A : Type ℓ} where
  pub All-imp : (P Q : A → Type 0) (xs : List A) → ((x : A) → P x → Q x) → All P xs → All Q xs
  All-imp P Q [] h a = tt
  All-imp P Q (x ∷ xs) h a = (h x a.0, All-imp P Q xs h a.1)

  pub All-both : (P Q : A → Type 0) (xs : List A) → All P xs → All Q xs → All (λ x. P x × Q x) xs
  All-both P Q [] a b = tt
  All-both P Q (x ∷ xs) a b = ((a.0, b.0), All-both P Q xs a.1 b.1)

  -- A row that an update changes, and a row that it leaves.
  pub All-update_rows :
      (P Q : A → Type 0) (p : A → Bool) (f : A → A) (xs : List A)
      → ((x : A) → p x ≡ true → P x → Q (f x))
      → ((x : A) → p x ≡ false → P x → Q x)
      → All P xs
      → All Q (update_rows p f xs)
  unfolding update_rows
  All-update_rows P Q p f [] h k a = tt
  All-update_rows P Q p f (x ∷ xs) h k a = (head (p x) refl, All-update_rows P Q p f xs h k a.1)
    where
      head : (b : Bool) → p x ≡ b → Q (if b then f x else x)
      head true e = h x e a.0
      head false e = k x e a.0

  pub count_rows-delete_rows-le :
      (p q : A → Bool) (xs : List A) → count_rows p (delete_rows q xs) ≤ count_rows p xs
  unfolding count_rows delete_rows
  count_rows-delete_rows-le p q [] = omega arith
  count_rows-delete_rows-le p q (x ∷ xs) = ground (arith, count_rows-delete_rows-le p q xs)

  -- An update that keeps what a test reads does not change the test's answer.
  pub any_row-update_rows :
      (q p : A → Bool) (f : A → A) (xs : List A)
      → ((x : A) → q (f x) ≡ q x)
      → any_row q (update_rows p f xs) ≡ any_row q xs
  unfolding any_row update_rows
  any_row-update_rows q p f [] h = refl
  any_row-update_rows q p f (x ∷ xs) h = ground (arith, h x, any_row-update_rows q p f xs h)

  pub first_row-holds : (p : A → Bool) (xs : List A) (x : A) → first_row p xs ≡ some x → p x ≡ true
  unfolding first_row
  first_row-holds p [] x e = cc
  first_row-holds p (y ∷ xs) x e = ground (arith, first_row-holds p xs x)
