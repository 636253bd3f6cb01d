-- ===== src/Db/Atomicity.antt =====
-- What a method of MatchingServer/src/repository commits and answers, by rules for its body.

use socket_communication.Common.{
  Bool-cases, Ran, Action, ◌>>=◌, ran, threw, ℕ, ◌≡◌, refl, sym, subst, ◌⊎◌, inl, inr, Bool, true,
  false, List,
}
use socket_communication.Db.{
  Tables, Transaction, Close, Db, next_fault, read_step, query, write_step, execute, try_commit,
  close_work, begin_work, run_work, commit, commit_filled, abort,
}
use socket_communication.DbPool.{DbPool, get_connection, return_connection}

-- How a body ends: what it commits, and what it answers when it aborts.
abbrev pub Closes {ℓ} :
    {A : Type ℓ} → (A → Type 0) → (A → Tables → Type 0) → Ran Transaction (Close A) → Type 0
Closes R Q (ran (commit a) w) = Q a w.tables
Closes R Q (ran (commit_filled a) w) = R a × Q a w.tables
Closes R Q (ran (abort a) w) = R a
Closes R Q (threw w) = Unit {0}

-- A method leaves the committed tables alone and answers by `R`, or changes them by `Q`. It leaves
-- them alone if it throws.
abbrev pub Atomic {ℓ} :
    {A : Type ℓ} → (A → Type 0) → (A → Tables → Type 0) → Tables → Ran Db A → Type 0
Atomic R Q t (ran a db) = ((db.committed ≡ t) × R a) ⊎ Q a db.committed
Atomic R Q t (threw db) = db.committed ≡ t

module _ {ℓ} {A : Type ℓ} (R : A → Type 0) (Q : A → Tables → Type 0) where
  try_commit-Atomic :
      (fallback a : A) (db : Db) (w : Transaction)
      → R fallback
      → Q a w.tables
      → Atomic R Q db.committed (try_commit fallback a db w)
  unfolding try_commit
  try_commit-Atomic fallback a db w r q = elim (Bool-cases (next_fault w.faults).0) [
    | inl broken ↦ rw broken (inl (refl, r))
    | inr sound ↦ rw sound (inr q)
  ]

  close_work-Atomic :
      (fallback : A) (db : Db) (e : Ran Transaction (Close A))
      → R fallback
      → Closes R Q e
      → Atomic R Q db.committed (close_work fallback db e)
  unfolding close_work
  close_work-Atomic fallback db (ran (commit a) w) r q = try_commit-Atomic fallback a db w r q
  close_work-Atomic fallback db (ran (commit_filled a) w) r q = try_commit-Atomic a a db w q.0 q.1
  close_work-Atomic fallback db (ran (abort a) w) r q = inl (refl, q)
  close_work-Atomic fallback db (threw w) r q = inl (refl, r)

  -- The body is judged on every transaction that starts at the committed tables, whatever
  -- statements fail.
  pub run_work-Atomic :
      (fallback : A) (body : Action Transaction (Close A)) (db : Db)
      → R fallback
      → ((w : Transaction) → w.tables ≡ db.committed → Closes R Q (body w))
      → Atomic R Q db.committed (run_work fallback body db)
  unfolding run_work begin_work
  run_work-Atomic fallback body db r h = go (get_connection db.link db.pool)
    where
      go :
          (g : Ran DbPool ℕ)
          → Atomic R Q db.committed (elim g [
            | threw p ↦ threw (record db { pool = p })
            | ran c p ↦ begin_work fallback body db c p (next_fault db.faults)
          ])
      go (threw p) = refl
      go (ran c p) = begun (next_fault db.faults)
        where
          begun :
              (n : Bool × List Bool) → Atomic R Q db.committed (begin_work fallback body db c p n)
          begun (true, rest) = refl
          begun (false, rest) =
              close_work-Atomic fallback (record db { pool = return_connection c p }) _ r (h _ refl)

  -- The rules for a body, from the tables `t` that it sees: a read goes on with them, a write with
  -- those that it makes.
  pub query-Closes {μ} :
      {B : Type μ} (t : Tables) (f : Tables → B) (k : B → Action Transaction (Close A))
      (w : Transaction)
      → w.tables ≡ t
      → ((w' : Transaction) → w'.tables ≡ t → Closes R Q (k (f t) w'))
      → Closes R Q ((query f >>= k) w)
  unfolding query
  query-Closes t f k w e h = go (next_fault w.faults)
    where
      go : (p : Bool × List Bool) → Closes R Q (((λ w'. read_step (f w'.tables) w' p) >>= k) w)
      go (true, rest) = tt
      go (false, rest) =
          subst (λ u. Closes R Q (k (f u) (record w { faults = rest }))) (sym e)
            (h (record w { faults = rest }) e)

  pub execute-Closes {μ} :
      {B : Type μ} (t : Tables) (f : ℕ → Action Tables B) (k : B → Action Transaction (Close A))
      (w : Transaction)
      → w.tables ≡ t
      → ((b : B) (w' : Transaction) → f w.now t ≡ ran b w'.tables → Closes R Q (k b w'))
      → Closes R Q ((execute f >>= k) w)
  unfolding execute
  execute-Closes t f k w e h = go (next_fault w.faults) (f w.now w.tables) refl
    where
      go :
          (p : Bool × List Bool) (r : Ran Tables _)
          → f w.now w.tables ≡ r
          → Closes R Q (((λ w'. write_step r w' p) >>= k) w)
      go (true, rest) r i = tt
      go (false, rest) (threw u) i = tt
      go (false, rest) (ran b u) i =
          h b (record w { tables = u; faults = rest }) (subst (λ x. f w.now x ≡ ran b u) e i)
