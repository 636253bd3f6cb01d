-- ===== src/GameSocket/Store.antt =====
-- The database of GameSocketServer, the table Users of init.sql, and the way its code opens a
-- transaction: a connection from the pool that is never given back.

pub mod Rules
use socket_communication.Common.{
  ℤ, pos, if◌then◌else◌, ◌==◌, nat_eq, int_eq, bytes_eq, string_eq, update_rows, any_row, ran,
  threw, ℕ, suc, Bool, not, ◌||◌, Option, none, some, List, [], ◌∷◌, ◌++◌,
}
use socket_communication.Db.{Text, fits, room_status_eq, game_status_eq}
use socket_communication.DbPool.{Link, DbPool, get_connection}
use socket_communication.GameSocket.Effects.{
  Failure, Tried, Task, sql_error, other_error, done, raised,
}

pub record Account : Type 0 where
  pub user_id : ℤ
  pub username : Text
  pub password : Text
  pub created_at : ℕ
  pub last_login : Option ℕ
  pub total_games : ℕ
  pub total_wins : ℕ
  pub rating : ℤ

-- The committed table, the sequence of its SERIAL column, and which of the statements to come fail
-- (BEGIN and COMMIT among them).
pub record Store : Type 0 where
  pub accounts : List Account
  pub next_id : ℕ
  pub faults : List (Option Failure)
  pub pool : DbPool
  pub link : Link

-- What an open transaction sees. A sequence goes on also where the transaction is aborted.
pub record Work : Type 0 where
  pub accounts : List Account
  pub next_id : ℕ
  pub faults : List (Option Failure)
  pub now : ℕ

-- How a transaction ends, with what the method goes on with. One that is left by an exception is
-- aborted by its destructor.
pub data Ending {ℓ} (A : Type ℓ) : Type ℓ where
  committed aborted : A → Ending A

abbrev pub next_fault : List (Option Failure) → Option Failure × List (Option Failure)
next_fault [] = (none, [])
next_fault (f ∷ fs) = (f, fs)

abbrev pub unless_fault {ℓ κ} :
    {S : Type ℓ} {A : Type κ} → Option Failure → (S → Tried S A) → S → Tried S A
unless_fault none k s = k s
unless_fault (some f) k s = raised f s

-- A statement: it fails for reasons of the database's own, or does `f` at the transaction's time.
unfoldable pub statement {ℓ} : {A : Type ℓ} → Task Work A → Task Work A
statement f w =
    let (fault, rest) = next_fault w.faults in unless_fault fault f (record w { faults = rest })

-- A statement that only reads.
abbrev pub select {ℓ} : {A : Type ℓ} → (List Account → A) → Task Work A
select f = statement (λ w. done (f w.accounts) w)

abbrev pub store_work : Work → Store → Store
store_work w s = record s { accounts = w.accounts }

abbrev pub after_work : Work → Store → Store
after_work w s = record s { next_id = w.next_id; faults = w.faults }

unfoldable pub finish {ℓ} : {A : Type ℓ} → Store → Tried Work (Ending A) → Tried Store A
finish s (done (committed a) w) =
    let (fault, rest) = next_fault w.faults in
    unless_fault fault (λ s'. done a (store_work w s')) (after_work (record w { faults = rest }) s)
finish s (done (aborted a) w) = done a (after_work w s)
finish s (raised e w) = raised e (after_work w s)

-- `pqxx::work txn(*conn)` sends BEGIN.
unfoldable pub begin_on {ℓ} :
    {A : Type ℓ}
    → Task Work (Ending A)
    → Option Failure × List (Option Failure)
    → Store
    → Tried Store A
unfolding finish
begin_on body (some f, rest) s = raised f (record s { faults = rest })
begin_on body (none, rest) s =
    finish s (
      body (record { accounts = s.accounts; next_id = s.next_id; faults = rest; now = s.link.now }))

-- `auto conn = db_pool_->get_connection(); pqxx::work txn(*conn); …`.
unfoldable pub with_work {ℓ} : {A : Type ℓ} → Task Work (Ending A) → Task Store A
unfolding begin_on
with_work body s = elim (get_connection s.link s.pool) [
  | threw p ↦ raised other_error (record s { pool = p })
  | ran c p ↦ begin_on body (next_fault s.faults) (record s { pool = p })
]

-- The width of VARCHAR(50).
abbrev pub column_width : ℕ
column_width = 50

-- INSERT INTO Users (username, password, created_at) … RETURNING user_id: the sequence is drawn
-- first; the widths and the UNIQUE column are checked.
unfoldable pub insert_account : Text → Text → Task Work ℤ
insert_account name hash w =
    let drawn : Work = record w { next_id = suc w.next_id } in
    if not (fits column_width name)
      || (not (fits column_width hash) || any_row (λ a. a.username == name) w.accounts)
    then raised sql_error drawn
    else done (pos w.next_id) (record drawn {
      accounts =
          w.accounts
          ++ record {
            user_id = pos w.next_id;
            username = name;
            password = hash;
            created_at = w.now;
            last_login = none;
            total_games = 0;
            total_wins = 0;
            rating = pos 1000;
          }
            ∷ [];
    })

-- UPDATE Users SET last_login = CURRENT_TIMESTAMP WHERE user_id = …: whether there is such a row.
unfoldable pub touch_account : ℤ → Task Work Bool
touch_account id w = done (any_row (λ a. a.user_id == id) w.accounts) (record w {
  accounts =
      update_rows (λ a. a.user_id == id) (λ a. record a { last_login = some w.now }) w.accounts;
})
