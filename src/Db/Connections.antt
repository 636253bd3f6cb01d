-- ===== src/Db/Connections.antt =====
-- The connection that a method of MatchingServer/src/repository takes from the pool.

use socket_communication.Common.{
  Ran, Action, final, Ends, ran, threw, ℕ, ◌≡◌, refl, subst, ◌≢◌, ◌⊎◌, inl, inr, Bool, true, false,
  List, ◌∷◌, Perm, arith,
}
use socket_communication.Db.{
  Transaction, Close, Db, next_fault, try_commit, close_work, begin_work, run_work, commit,
  commit_filled, abort,
}
use socket_communication.DbPool.{DbPool, get_connection, return_connection}
use socket_communication.DbPool.Slots.{IsValid, held}
use socket_communication.DbPool.Leases.{Lends, get_connection-Lends, return_connection-IsValid}

-- The pool is valid and lends what it lent before.
abbrev pub IsReturned : DbPool → DbPool → Type 0
IsReturned p p' = IsValid p' × (held p' ≡ held p)

-- The pool is valid and lends one connection more.
abbrev pub Leaks : DbPool → DbPool → Type 0
Leaks p p' = IsValid p' × ((c : ℕ) × Perm (held p') (c ∷ held p))

abbrev pub Balanced {ℓ} : {A : Type ℓ} → DbPool → Ran Db A → Type 0
Balanced p = Ends (λ a db. IsReturned p db.pool) (λ db. IsReturned p db.pool ⊎ Leaks p db.pool)

close_work-pool {ℓ} :
    {A : Type ℓ} (fallback : A) (db : Db) (e : Ran Transaction (Close A))
    → (final (close_work fallback db e)).pool ≡ db.pool
unfolding close_work
close_work-pool fallback db (ran (commit a) w) = ground arith
close_work-pool fallback db (ran (commit_filled a) w) = ground arith
close_work-pool fallback db (ran (abort a) w) = refl
close_work-pool fallback db (threw w) = refl

close_work-Balanced {ℓ} :
    {A : Type ℓ} (p : DbPool) (r : Ran Db A)
    → ((db : Db) → r ≢ threw db)
    → IsReturned p (final r).pool
    → Balanced p r
close_work-Balanced p (ran a db) n b = b
close_work-Balanced p (threw db) n b = absurd (n db refl)

close_work-returns {ℓ} :
    {A : Type ℓ} (fallback : A) (db : Db) (e : Ran Transaction (Close A)) (db' : Db)
    → close_work fallback db e ≢ threw db'
unfolding close_work try_commit
close_work-returns fallback db (ran (commit a) w) db' = λ e. ground arith
close_work-returns fallback db (ran (commit_filled a) w) db' = λ e. ground arith
close_work-returns fallback db (ran (abort a) w) db' = λ e. cc
close_work-returns fallback db (threw w) db' = λ e. cc

-- A repository method that returns leaves the pool valid and the connections in use as they were,
-- whether it commits, aborts or meets an exception. One that throws does too, or has left one
-- connection more in use.
pub run_work-Balanced {ℓ} :
    {A : Type ℓ} (fallback : A) (body : Action Transaction (Close A)) (db : Db)
    → IsValid db.pool
    → Balanced db.pool (run_work fallback body db)
unfolding run_work begin_work
run_work-Balanced {A} fallback body db v =
    go (get_connection db.link db.pool) (get_connection-Lends db.link db.pool v)
  where
    go :
        (g : Ran DbPool ℕ)
        → Lends db.pool g
        → Balanced {A = A} db.pool (elim g [
          | threw p ↦ threw (record db { pool = p })
          | ran c p ↦ begin_work fallback body db c p (next_fault db.faults)
        ])
    go (threw p) e = inl (rw e (v, refl))
    go (ran c p) (v', lent, e) = begun (next_fault db.faults)
      where
        begun :
            (n : Bool × List Bool) → Balanced {A = A} db.pool (begin_work fallback body db c p n)
        begun (true, rest) = inr (v', (c, lent))
        begun (false, rest) =
            let db' : Db = record db { pool = return_connection c p } in
            close_work-Balanced db.pool _ (close_work-returns fallback db' _)
              (rw (close_work-pool fallback db' _) (return_connection-IsValid c p v', e))

-- Where BEGIN fails, the connection that the method has taken stays in use: the exception leaves the
-- pool with it lent.
pub run_work-Leaks {ℓ} :
    {A : Type ℓ} (fallback : A) (body : Action Transaction (Close A)) (db : Db) (c : ℕ) (p : DbPool)
    (rest : List Bool)
    → IsValid db.pool
    → get_connection db.link db.pool ≡ ran c p
    → db.faults ≡ true ∷ rest
    → (run_work fallback body db ≡ threw (record db { pool = p; faults = rest })) × Leaks db.pool p
unfolding run_work begin_work
run_work-Leaks fallback body db c p rest v g f = (ground arith, (lends.0, (c, lends.1)))
  where
    lends : Lends db.pool (ran c p)
    lends = subst (Lends db.pool) g (get_connection-Lends db.link db.pool v)
