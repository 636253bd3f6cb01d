-- ===== src/Common/Int.antt =====
-- C++ `int` values as integers: identifiers and limits that JSON and the database hand over.

use Prim.Native.Nat.{ℕ, ◌≤◌, compare, Ordering}
use mathlib.Core.Path.{◌≡◌, refl, sym, ap}
use mathlib.Core.Logic.{dite}
use mathlib.Core.Bool.{Bool, true, false}
use native.Mathlib.Decide.{ℕ_discrete}
use native.Mathlib.Omega.{arith}

-- `negsuc n` is -(n + 1), so the sentinel -1 of the source is `negsuc 0`.
pub data ℤ : Type 0 where
  pos : ℕ → ℤ
  negsuc : ℕ → ℤ

pub pos_inj : {a b : ℕ} → pos a ≡ pos b → a ≡ b
pos_inj e = cc

pub negsuc_inj : {a b : ℕ} → negsuc a ≡ negsuc b → a ≡ b
negsuc_inj e = cc

pub pos-ne-negsuc : {a b : ℕ} → ¬ (pos a ≡ negsuc b)
pos-ne-negsuc e = cc

unfoldable pub ℤ-discrete : Discrete ℤ
unfolding ℕ_discrete
ℤ-discrete (pos a) (pos b) =
    dite (ℕ_discrete a b) (λ p. yes (ap pos p)) (λ n. no (λ e. n (pos_inj e)))
ℤ-discrete (pos a) (negsuc b) = no pos-ne-negsuc
ℤ-discrete (negsuc a) (pos b) = no (λ e. pos-ne-negsuc (sym e))
ℤ-discrete (negsuc a) (negsuc b) =
    dite (ℕ_discrete a b) (λ p. yes (ap negsuc p)) (λ n. no (λ e. n (negsuc_inj e)))

abbrev lt_ℕ : ℕ → ℕ → Bool
lt_ℕ a b = elim (compare a b) [ Ordering.lt ↦ true | _ ↦ false ]

-- `a < b` between two ints.
abbrev pub lt_int : ℤ → ℤ → Bool
lt_int (pos a) (pos b) = lt_ℕ a b
lt_int (pos a) (negsuc b) = false
lt_int (negsuc a) (pos b) = true
lt_int (negsuc a) (negsuc b) = lt_ℕ b a

abbrev pub minus_one : ℤ
minus_one = negsuc 0

-- An int between two literals is a natural number between them.
abbrev pub Within : ℕ → ℕ → ℤ → Type 0
Within lo hi z = (n : ℕ) × (z ≡ pos n) × (lo ≤ n) × (n ≤ hi)

pub Within-of_lt_int :
    (lo hi : ℕ) (z : ℤ) → lt_int z (pos lo) ≡ false → lt_int (pos hi) z ≡ false → Within lo hi z
Within-of_lt_int lo hi (pos n) h k = (n, refl, ground arith, ground arith)
Within-of_lt_int lo hi (negsuc n) h k = cc

pub lt_int_asym : (a b : ℤ) → lt_int a b ≡ true → lt_int b a ≡ false
lt_int_asym (pos a) (pos b) h = ground arith
lt_int_asym (pos a) (negsuc b) h = cc
lt_int_asym (negsuc a) (pos b) h = refl
lt_int_asym (negsuc a) (negsuc b) h = ground arith

-- `≤` is transitive, written with the negated `<`.
pub lt_int_trans : (a b c : ℤ) → lt_int b a ≡ false → lt_int c b ≡ false → lt_int c a ≡ false
lt_int_trans (pos a) (pos b) (pos c) h k = ground arith
lt_int_trans (negsuc a) (negsuc b) (negsuc c) h k = ground arith
lt_int_trans (negsuc a) b (pos c) h k = refl
lt_int_trans (pos a) (pos b) (negsuc c) h k = cc
lt_int_trans (pos a) (negsuc b) c h k = cc
lt_int_trans (negsuc a) (pos b) (negsuc c) h k = cc

pub lt_int_irrefl : (a : ℤ) → lt_int a a ≡ false
lt_int_irrefl (pos a) = ground arith
lt_int_irrefl (negsuc a) = ground arith
