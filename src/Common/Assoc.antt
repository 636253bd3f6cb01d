-- ===== src/Common/Assoc.antt =====
-- `std::unordered_map` as a list of pairs; the list's order stands for the map's own.

use mathlib.Core.Path.{◌≡◌, refl}
use mathlib.Core.Bool.{Bool, true, false}
use mathlib.Core.Option.{Option, none, some}
use mathlib.Core.List.{List, [], ◌∷◌}
use native.Mathlib.Omega.{arith}
use socket_communication.Common.Tests.{if◌then◌else◌, Eq, ◌==◌}

module _ {ℓ κ} {K : Type ℓ} {V : Type κ} ⦃e : Eq K⦄ where
  -- `find`: the value of the first pair with the key.
  unfoldable pub lookup : K → List (K × V) → Option V
  lookup key [] = none
  lookup key ((other, value) ∷ rest) =
      let later = lookup key rest in if other == key then some value else later

  abbrev pub has_key : K → List (K × V) → Bool
  has_key key pairs = elim (lookup key pairs) [ none ↦ false | some value ↦ true ]

  -- `erase(key)`.
  unfoldable pub erase : K → List (K × V) → List (K × V)
  erase key [] = []
  erase key ((other, value) ∷ rest) =
      let shorter = erase key rest in if other == key then shorter else (other, value) ∷ shorter

  -- `pairs[key] = value`.
  unfoldable pub insert : K → V → List (K × V) → List (K × V)
  insert key value [] = (key, value) ∷ []
  insert key value ((other, old) ∷ rest) =
      let longer = insert key value rest in
      if other == key then (other, value) ∷ rest else (other, old) ∷ longer

  pub lookup-erase :
      (key j : K) (pairs : List (K × V))
      → lookup j (erase key pairs) ≡ (if key == j then none else lookup j pairs)
  unfolding lookup erase
  lookup-erase key j [] = ground arith
  lookup-erase key j ((i, w) ∷ pairs) = ground (arith, lookup-erase key j pairs)

  pub lookup-insert :
      (key j : K) (value : V) (pairs : List (K × V))
      → lookup j (insert key value pairs) ≡ (if key == j then some value else lookup j pairs)
  unfolding lookup insert
  lookup-insert key j value [] = refl
  lookup-insert key j value ((i, w) ∷ pairs) = ground (arith, lookup-insert key j value pairs)
