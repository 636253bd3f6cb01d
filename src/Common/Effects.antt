-- ===== src/Common/Effects.antt =====
-- Stateful code that may throw a C++ exception: the state reached is kept in either case.

use mathlib.Core.Option.{Option, none, some}

pub data Ran {ℓ κ} (S : Type ℓ) (A : Type κ) : Type (ℓ ⊔ κ) where
  ran : A → S → Ran S A
  threw : S → Ran S A

abbrev pub Action {ℓ κ} : Type ℓ → Type κ → Type (ℓ ⊔ κ)
Action S A = S → Ran S A

infixl 5 ◌>>=◌ ◌>>◌
abbrev pub ◌>>=◌ {ℓ κ μ} :
    {S : Type ℓ} {A : Type κ} {B : Type μ} → Action S A → (A → Action S B) → Action S B
◌>>=◌ m f s = elim (m s) [ ran a s' ↦ f a s' | threw s' ↦ threw s' ]

abbrev pub ◌>>◌ {ℓ κ μ} :
    {S : Type ℓ} {A : Type κ} {B : Type μ} → Action S A → Action S B → Action S B
m >> k = m >>= λ _. k

abbrev pub pure {ℓ κ} : {S : Type ℓ} {A : Type κ} → A → Action S A
pure a s = ran a s

abbrev pub throw {ℓ κ} : {S : Type ℓ} {A : Type κ} → Action S A
throw s = threw s

-- `try { m } catch (const std::exception&) { handler }`.
abbrev pub catching {ℓ κ} : {S : Type ℓ} {A : Type κ} → Action S A → Action S A → Action S A
catching m handler s = elim (m s) [ ran a s' ↦ ran a s' | threw s' ↦ handler s' ]

-- The state after a run, and the value that it returns, if it returns.
abbrev pub final {ℓ κ} : {S : Type ℓ} {A : Type κ} → Ran S A → S
final (ran a s) = s
final (threw s) = s

abbrev pub returned {ℓ κ} : {S : Type ℓ} {A : Type κ} → Ran S A → Option A
returned (ran a s) = some a
returned (threw s) = none

-- A postcondition for either way to end.
abbrev pub Ends {ℓ κ μ} :
    {S : Type ℓ} {A : Type κ} → (A → S → Type μ) → (S → Type μ) → Ran S A → Type μ
Ends P E (ran a s) = P a s
Ends P E (threw s) = E s

pub Ends-bind {ℓ κ μ} :
    {S : Type ℓ} {A B : Type κ} (P : A → S → Type μ) (E : S → Type μ) (Q : B → S → Type μ)
    (m : Action S A) (f : A → Action S B) (s : S)
    → Ends P E (m s)
    → ((a : A) (s' : S) → P a s' → Ends Q E (f a s'))
    → Ends Q E ((m >>= f) s)
Ends-bind P E Q m f s h k = go (m s) h
  where
    go : (r : Ran _ _) → Ends P E r → Ends Q E (elim r [ ran a s' ↦ f a s' | threw s' ↦ threw s' ])
    go (ran a s') p = k a s' p
    go (threw s') e = e

-- The rule of `catching`: the handler starts where the exception was thrown.
pub Ends-catching {ℓ κ μ} :
    {S : Type ℓ} {A : Type κ} (P : A → S → Type μ) (E E' : S → Type μ) (m h : Action S A) (s : S)
    → Ends P E (m s)
    → ((s' : S) → E s' → Ends P E' (h s'))
    → Ends P E' (catching m h s)
Ends-catching P E E' m h s e k = go (m s) e
  where
    go : (r : Ran _ _) → Ends P E r → Ends P E' (elim r [ ran a s' ↦ ran a s' | threw s' ↦ h s' ])
    go (ran a s') p = p
    go (threw s') x = k s' x
