-- ===== src/GameSocket/Effects.antt =====
-- Stateful code that may raise an exception of one of the kinds that its `catch` clauses tell apart.

-- `pqxx::sql_error`, another `std::exception`, and undefined behaviour, which no clause catches.
pub data Failure : Type 0 where
  sql_error other_error undefined_behaviour : Failure

pub data Tried {ℓ κ} (S : Type ℓ) (A : Type κ) : Type (ℓ ⊔ κ) where
  done : A → S → Tried S A
  raised : Failure → S → Tried S A

abbrev pub Task {ℓ κ} : Type ℓ → Type κ → Type (ℓ ⊔ κ)
Task S A = S → Tried S A

infixl 5 ◌>>=◌ ◌>>◌
abbrev pub ◌>>=◌ {ℓ κ μ} :
    {S : Type ℓ} {A : Type κ} {B : Type μ} → Task S A → (A → Task S B) → Task S B
◌>>=◌ m f s = elim (m s) [ done a s' ↦ f a s' | raised e s' ↦ raised e s' ]

abbrev pub ◌>>◌ {ℓ κ μ} : {S : Type ℓ} {A : Type κ} {B : Type μ} → Task S A → Task S B → Task S B
m >> k = m >>= λ _. k

abbrev pub give {ℓ κ} : {S : Type ℓ} {A : Type κ} → A → Task S A
give a s = done a s

abbrev pub fail {ℓ κ} : {S : Type ℓ} {A : Type κ} → Failure → Task S A
fail e s = raised e s

-- `catch (const pqxx::sql_error&)` and `catch (const std::exception&)`, in this order.
abbrev pub rescue {ℓ κ} : {S : Type ℓ} {A : Type κ} → A → A → Tried S A → Tried S A
rescue sql other (done a s) = done a s
rescue sql other (raised sql_error s) = done sql s
rescue sql other (raised other_error s) = done other s
rescue sql other (raised undefined_behaviour s) = raised undefined_behaviour s

-- The state reached.
abbrev pub reached {ℓ κ} : {S : Type ℓ} {A : Type κ} → Tried S A → S
reached (done a s) = s
reached (raised e s) = s

-- A postcondition for either way to end.
abbrev pub Leads {ℓ κ μ} :
    {S : Type ℓ} {A : Type κ} → (A → S → Type μ) → (Failure → S → Type μ) → Tried S A → Type μ
Leads P E (done a s) = P a s
Leads P E (raised e s) = E e s

pub Leads-bind {ℓ κ μ} :
    {S : Type ℓ} {A B : Type κ} (P : A → S → Type μ) (E : Failure → S → Type μ) (Q : B → S → Type μ)
    (m : Task S A) (f : A → Task S B) (s : S)
    → Leads P E (m s)
    → ((a : A) (s' : S) → P a s' → Leads Q E (f a s'))
    → Leads Q E ((m >>= f) s)
Leads-bind P E Q m f s h k = go (m s) h
  where
    go :
        (r : Tried _ _)
        → Leads P E r
        → Leads Q E (elim r [ done a s' ↦ f a s' | raised e s' ↦ raised e s' ])
    go (done a s') p = k a s' p
    go (raised e s') q = q

pub Leads-imp {ℓ κ μ ν} :
    {S : Type ℓ} {A : Type κ} (P : A → S → Type μ) (E : Failure → S → Type μ) (P' : A → S → Type ν)
    (E' : Failure → S → Type ν) (r : Tried S A)
    → ((a : A) (s : S) → P a s → P' a s)
    → ((e : Failure) (s : S) → E e s → E' e s)
    → Leads P E r
    → Leads P' E' r
Leads-imp P E P' E' (done a s) h k p = h a s p
Leads-imp P E P' E' (raised e s) h k q = k e s q

-- The rule of `rescue`: the fallbacks are answers too.
pub Leads-rescue {ℓ κ μ} :
    {S : Type ℓ} {A : Type κ} (P : A → S → Type μ) (E : Failure → S → Type μ) (sql other : A)
    (r : Tried S A)
    → ((s : S) → E sql_error s → P sql s)
    → ((s : S) → E other_error s → P other s)
    → Leads P E r
    → Leads P E (rescue sql other r)
Leads-rescue P E sql other (done a s) h k p = p
Leads-rescue P E sql other (raised sql_error s) h k q = h s q
Leads-rescue P E sql other (raised other_error s) h k q = k s q
Leads-rescue P E sql other (raised undefined_behaviour s) h k q = q

pub Leads-both {ℓ κ μ ν} :
    {S : Type ℓ} {A : Type κ} (P : A → S → Type μ) (E : Failure → S → Type μ) (P' : A → S → Type ν)
    (E' : Failure → S → Type ν) (r : Tried S A)
    → Leads P E r
    → Leads P' E' r
    → Leads (λ a s. P a s × P' a s) (λ e s. E e s × E' e s) r
Leads-both P E P' E' (done a s) h k = (h, k)
Leads-both P E P' E' (raised e s) h k = (h, k)
