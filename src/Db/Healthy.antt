-- ===== src/Db/Healthy.antt =====
-- Methods of MatchingServer/src/repository on a database that answers: the pool lends a connection
-- and no statement fails.

use socket_communication.Common.{
  Ran, Action, ◌>>=◌, final, returned, ran, ℕ, ◌≡◌, refl, ap, some, [], arith,
}
use socket_communication.DbPool.{DbPool, get_connection}
use socket_communication.Db.{
  Tables, Transaction, Close, Db, with_tables, query, execute, begin_work, run_work, commit,
  commit_filled, abort,
}

-- The pool serves, and no statement is due to fail.
pub record IsHealthy (db : Db) : Type 0 where
  pub no_faults : db.faults ≡ []
  pub conn : ℕ
  pub rest : DbPool
  pub lends : get_connection db.link db.pool ≡ ran conn rest

-- The transaction that a method opens on such a database.
abbrev pub quiet : ℕ → Tables → Transaction
quiet now t = record { tables = t; faults = []; now = now }

abbrev pub opened : Db → Transaction
opened db = quiet db.link.now db.committed

module _ {ℓ κ} {A : Type ℓ} {B : Type κ} where
  pub query-quiet :
      (f : Tables → A) (k : A → Action Transaction B) (now : ℕ) (t : Tables)
      → (query f >>= k) (quiet now t) ≡ k (f t) (quiet now t)
  unfolding query
  query-quiet f k now t = refl

  pub execute-quiet :
      (f : ℕ → Action Tables A) (k : A → Action Transaction B) (now : ℕ) (t t' : Tables) (a : A)
      → f now t ≡ ran a t'
      → (execute f >>= k) (quiet now t) ≡ k a (quiet now t')
  unfolding execute
  execute-quiet f k now t t' a e = ap g e
    where
      g : Ran Tables A → Ran Transaction B
      g r = ((λ w. with_tables w r) >>= k) (quiet now t)

abbrev pub Answers {ℓ} : {A : Type ℓ} → A → Tables → Ran Db A → Type ℓ
Answers a t r = (returned r ≡ some a) × ((final r).committed ≡ t)

module _ {ℓ} {A : Type ℓ} (fallback : A) (body : Action Transaction (Close A)) where
  pub run_work-commit :
      (db : Db) (a : A) (t : Tables)
      → IsHealthy db
      → body (opened db) ≡ ran (commit a) (record (opened db) { tables = t })
      → Answers a t (run_work fallback body db)
  unfolding run_work begin_work
  run_work-commit db a t h e = ground arith

  pub run_work-commit_filled :
      (db : Db) (a : A) (t : Tables)
      → IsHealthy db
      → body (opened db) ≡ ran (commit_filled a) (record (opened db) { tables = t })
      → Answers a t (run_work fallback body db)
  unfolding run_work begin_work
  run_work-commit_filled db a t h e = ground arith

  pub run_work-abort :
      (db : Db) (a : A)
      → IsHealthy db
      → body (opened db) ≡ ran (abort a) (opened db)
      → Answers a db.committed (run_work fallback body db)
  unfolding run_work begin_work
  run_work-abort db a h e = ground arith
