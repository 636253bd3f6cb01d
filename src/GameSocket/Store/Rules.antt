-- ===== src/GameSocket/Store/Rules.antt =====
-- What `with_work` (GameSocketServer/src/api/auth_api.cpp, GameSocketServer/src/db/user_dao.cpp) does
-- to the table and to the pool, from what the body of the transaction does.

use socket_communication.Common.{
  Ran, ran, threw, ℕ, ◌≡◌, refl, sym, ap, subst, ◌∙◌, ◌⊎◌, inl, inr, Option, none, some, List, [],
  ◌∷◌, Perm,
}
use socket_communication.GameSocket.Effects.{
  Failure, Tried, Task, Leads, Leads-imp, other_error, done, raised,
}
use socket_communication.GameSocket.Store.{
  Account, Store, Work, Ending, next_fault, unless_fault, statement, store_work, after_work, finish,
  begin_on, with_work, committed, aborted,
}
use socket_communication.DbPool.{DbPool, get_connection}
use socket_communication.DbPool.Slots.{IsValid, held}
use socket_communication.DbPool.Leases.{Lends, get_connection-Lends}

-- A statement leads where its effect does, with the faults that are left.
pub statement-Leads {ℓ κ} :
    {A : Type ℓ} (P : A → Work → Type κ) (E : Failure → Work → Type κ) (f : Task Work A) (w : Work)
    → ((fs : List (Option Failure)) → Leads P E (f (record w { faults = fs })))
    → ((e : Failure) (fs : List (Option Failure)) → E e (record w { faults = fs }))
    → Leads P E (statement f w)
unfolding statement
statement-Leads P E f w h k = go w.faults
  where
    go :
        (fs : List (Option Failure))
        → Leads P E (unless_fault (next_fault fs).0 f (record w { faults = (next_fault fs).1 }))
    go [] = h []
    go (none ∷ fs) = h fs
    go (some e ∷ fs) = k e fs

-- What a body leaves: the rows of a transaction that commits, the former rows of one that does not.
abbrev pub Leaves {ℓ} :
    {A : Type ℓ} → (A → List Account → Type 0) → List Account → Ending A → Work → Type 0
Leaves R before (committed a) w = R a w.accounts
Leaves R before (aborted a) w = R a before

module _ {ℓ} {A : Type ℓ} (R : A → List Account → Type 0) where
  finish-Leads :
      (s : Store) (r : Tried Work (Ending A))
      → Leads (Leaves R s.accounts) (λ _ _. Unit) r
      → Leads (λ a s'. R a s'.accounts) (λ _ s'. s'.accounts ≡ s.accounts) (finish s r)
  unfolding finish
  finish-Leads s (done (committed a) w) h = go w.faults
    where
      go :
          (fs : List (Option Failure))
          → Leads
              (λ a s'. R a s'.accounts)
              (λ _ s'. s'.accounts ≡ s.accounts)
              (unless_fault
                (next_fault fs).0
                (λ s'. done a (store_work w s'))
                (after_work (record w { faults = (next_fault fs).1 }) s))
      go [] = h
      go (none ∷ fs) = h
      go (some f ∷ fs) = refl
  finish-Leads s (done (aborted a) w) h = h
  finish-Leads s (raised e w) h = refl

  -- The rows after a transaction that returns are as the body says, and the former ones after one
  -- that raises.
  pub with_work-Leads :
      (body : Task Work (Ending A)) (s : Store)
      → ((w : Work)
          → w.accounts ≡ s.accounts
          → w.now ≡ s.link.now
          → Leads (Leaves R s.accounts) (λ _ _. Unit) (body w))
      → Leads (λ a s'. R a s'.accounts) (λ _ s'. s'.accounts ≡ s.accounts) (with_work body s)
  unfolding with_work begin_on
  with_work-Leads body s h = lent (get_connection s.link s.pool)
    where
      begun :
          (fault : Option Failure × List (Option Failure)) (p : DbPool)
          → Leads
              (λ a s'. R a s'.accounts)
              (λ _ s'. s'.accounts ≡ s.accounts)
              (begin_on body fault (record s { pool = p }))
      begun (some f, rest) p = refl
      begun (none, rest) p = finish-Leads (record s { pool = p }) (body _) (h _ refl refl)

      lent :
          (r : Ran DbPool ℕ)
          → Leads
              (λ a s'. R a s'.accounts)
              (λ _ s'. s'.accounts ≡ s.accounts)
              (elim r [
                | threw p ↦ raised other_error (record s { pool = p })
                | ran c p ↦ begin_on body (next_fault s.faults) (record s { pool = p })
              ])
      lent (threw p) = refl
      lent (ran c p) = begun (next_fault s.faults) p

-- Where a connection is got and no statement fails, the body runs on the stored rows.
pub with_work-runs {ℓ} :
    {A : Type ℓ} (body : Task Work (Ending A)) (s : Store) (c : ℕ) (p : DbPool)
    → get_connection s.link s.pool ≡ ran c p
    → s.faults ≡ []
    → with_work body s
      ≡ finish
          (record s { pool = p })
          (body
            (record { accounts = s.accounts; next_id = s.next_id; faults = []; now = s.link.now }))
unfolding with_work begin_on
with_work-runs body s c p lent calm =
    ap
      (λ r. elim r as (λ _. Tried Store _) [
        | threw p' ↦ raised other_error (record s { pool = p' })
        | ran c' p' ↦ begin_on body (next_fault s.faults) (record s { pool = p' })
      ])
      lent
    ∙ ap (λ fs. begin_on body (next_fault fs) (record s { pool = p })) calm

-- One connection more is in use.
abbrev pub Leaked : DbPool → DbPool → Type 0
Leaked p p' = IsValid p' × ((c : ℕ) × Perm (held p') (c ∷ held p))

module _ {ℓ} {A : Type ℓ} where
  finish-pool :
      (s : Store) (r : Tried Work (Ending A))
      → Leads (λ _ s'. s'.pool ≡ s.pool) (λ _ s'. s'.pool ≡ s.pool) (finish s r)
  unfolding finish
  finish-pool s (done (committed a) w) = go w.faults
    where
      go :
          (fs : List (Option Failure))
          → Leads
              (λ _ s'. s'.pool ≡ s.pool)
              (λ _ s'. s'.pool ≡ s.pool)
              (unless_fault
                (next_fault fs).0
                (λ s'. done a (store_work w s'))
                (after_work (record w { faults = (next_fault fs).1 }) s))
      go [] = refl
      go (none ∷ fs) = refl
      go (some f ∷ fs) = refl
  finish-pool s (done (aborted a) w) = refl
  finish-pool s (raised e w) = refl

  -- Whatever the body is, a transaction that returns leaves one connection more in use, and one
  -- that raises leaves one more or has not got one.
  pub with_work-leaks :
      (body : Task Work (Ending A)) (s : Store)
      → IsValid s.pool
      → Leads
          (λ _ s'. Leaked s.pool s'.pool)
          (λ _ s'. (s'.pool ≡ s.pool) ⊎ Leaked s.pool s'.pool)
          (with_work body s)
  unfolding with_work begin_on
  with_work-leaks body s v =
      lent (get_connection s.link s.pool) (get_connection-Lends s.link s.pool v)
    where
      begun :
          (fault : Option Failure × List (Option Failure)) (p : DbPool)
          → Leaked s.pool p
          → Leads
              (λ _ s'. Leaked s.pool s'.pool)
              (λ _ s'. (s'.pool ≡ s.pool) ⊎ Leaked s.pool s'.pool)
              (begin_on body fault (record s { pool = p }))
      begun (some f, rest) p k = inr k
      begun (none, rest) p k =
          Leads-imp _ _ _ _ (finish (record s { pool = p }) (body _))
            (λ a s' e. subst (Leaked s.pool) (sym e) k)
            (λ f s' e. inr (subst (Leaked s.pool) (sym e) k))
            (finish-pool (record s { pool = p }) (body _))

      lent :
          (r : Ran DbPool ℕ)
          → Lends s.pool r
          → Leads
              (λ _ s'. Leaked s.pool s'.pool)
              (λ _ s'. (s'.pool ≡ s.pool) ⊎ Leaked s.pool s'.pool)
              (elim r [
                | threw p ↦ raised other_error (record s { pool = p })
                | ran c p ↦ begin_on body (next_fault s.faults) (record s { pool = p })
              ])
      lent (threw p) e = inl e
      lent (ran c p) l = begun (next_fault s.faults) p (l.0, (c, l.1))
