-- ===== src/Db/Work.antt =====
-- The shape that every repository method of MatchingServer/src/repository has: a connection from the
-- pool, a `pqxx::work` on it, statements that may throw, `commit` or `abort`, and the connection's
-- return, with a `catch` that aborts and answers a fallback.

use socket_communication.Common.{
  if◌then◌else◌, Ran, Action, ran, threw, ℕ, Bool, true, false, List, [], ◌∷◌,
}
use socket_communication.DbPool.{Link, DbPool, get_connection, return_connection}
use socket_communication.Db.Schema.{Tables}

-- An open transaction: the tables as it sees them, which of the statements to come (BEGIN and COMMIT
-- among them) will fail for reasons of the database's own (`true` is a failure, the end of the list
-- is no more failures), and the time.
pub record Transaction : Type 0 where
  pub tables : Tables
  pub faults : List Bool
  pub now : ℕ

-- How the body of a method ends, with the value that the method then returns. Where the commit fails
-- after `commit`, the method returns its fallback; after `commit_filled`, the same value, which the
-- body has written into the fallback.
pub data Close {ℓ} (A : Type ℓ) : Type ℓ where
  commit commit_filled abort : A → Close A

pub record Db : Type 0 where
  pub committed : Tables
  pub faults : List Bool
  pub pool : DbPool
  pub link : Link

-- Whether the next statement fails, and the faults after it.
abbrev pub next_fault : List Bool → Bool × List Bool
next_fault [] = (false, [])
next_fault (b ∷ bs) = (b, bs)

abbrev pub with_tables {ℓ} : {A : Type ℓ} → Transaction → Ran Tables A → Ran Transaction A
with_tables w (ran a t) = ran a (record w { tables = t })
with_tables w (threw t) = threw w

abbrev pub read_step {ℓ} : {A : Type ℓ} → A → Transaction → Bool × List Bool → Ran Transaction A
read_step a w (true, rest) = threw (record w { faults = rest })
read_step a w (false, rest) = ran a (record w { faults = rest })

-- A statement that only reads.
unfoldable pub query {ℓ} : {A : Type ℓ} → (Tables → A) → Action Transaction A
query f w = read_step (f w.tables) w (next_fault w.faults)

abbrev pub write_step {ℓ} :
    {A : Type ℓ} → Ran Tables A → Transaction → Bool × List Bool → Ran Transaction A
write_step r w (true, rest) = threw (record w { faults = rest })
write_step r w (false, rest) = with_tables (record w { faults = rest }) r

-- A statement that writes; a constraint that it violates makes it throw.
unfoldable pub execute {ℓ} : {A : Type ℓ} → (ℕ → Action Tables A) → Action Transaction A
execute f w = write_step (f w.now w.tables) w (next_fault w.faults)

unfoldable pub try_commit {ℓ} : {A : Type ℓ} → A → A → Db → Transaction → Ran Db A
try_commit fallback a db w =
    let (broken, rest) = next_fault w.faults in
    if broken
    then ran fallback (record db { faults = rest })
    else ran a (record db { committed = w.tables; faults = rest })

unfoldable pub close_work {ℓ} : {A : Type ℓ} → A → Db → Ran Transaction (Close A) → Ran Db A
unfolding try_commit
close_work fallback db (ran (commit a) w) = try_commit fallback a db w
close_work fallback db (ran (commit_filled a) w) = try_commit a a db w
close_work fallback db (ran (abort a) w) = ran a (record db { faults = w.faults })
close_work fallback db (threw w) = ran fallback (record db { faults = w.faults })

-- `pqxx::work txn(*conn)` sends BEGIN, outside the `try` too: where it fails, the connection is not
-- given back.
unfoldable pub begin_work {ℓ} :
    {A : Type ℓ} → A → Action Transaction (Close A) → Db → ℕ → DbPool → Bool × List Bool → Ran Db A
unfolding close_work
begin_work fallback body db c p (true, rest) = threw (record db { pool = p; faults = rest })
begin_work fallback body db c p (false, rest) =
    close_work fallback (record db { pool = return_connection c p })
      (body (record { tables = db.committed; faults = rest; now = db.link.now }))

-- The connection is taken outside the `try`, so a pool that cannot serve throws to the caller.
unfoldable pub run_work {ℓ} : {A : Type ℓ} → A → Action Transaction (Close A) → Action Db A
unfolding begin_work
run_work fallback body db = elim (get_connection db.link db.pool) [
  | threw p ↦ threw (record db { pool = p })
  | ran c p ↦ begin_work fallback body db c p (next_fault db.faults)
]
