-- ===== src/GameSocket/AuthApi/Admission.antt =====
-- `handle_login` of GameSocketServer/src/api/auth_api.cpp on a database that answers.

use socket_communication.GameSocket.Effects.{Tried, Task, ◌>>=◌, ◌>>◌, give, rescue, done, raised}
use socket_communication.GameSocket.Store.{
  Account, Store, Work, Ending, statement, finish, with_work, touch_account, committed, aborted,
}
use socket_communication.GameSocket.Store.Rules.{with_work-runs}
use socket_communication.GameSocket.AuthApi.{
  AuthRequest, Answer, Library, hash_password, generate_auth_token, text_field, is_account,
  login_body, welcome, login_checked, handle_login, database_error, internal_error, refused,
  logged_in,
}
use socket_communication.GameSocket.AuthApi.Login.{seen, welcomed}
use socket_communication.Common.{
  ◌==◌, nat_eq, int_eq, bytes_eq, string_eq, first_row, All, ran, to_hex, ℕ, ◌≡◌, ap, ◌∙◌, false,
  Option, none, some, List, [], ◌∷◌, ◌++◌, arith,
}
use socket_communication.Db.{Text, room_status_eq, game_status_eq}
use socket_communication.Protocol.{Field, given}
use socket_communication.DbPool.{DbPool, get_connection}

module _ (x : Library) (name password : Text) (s : Store) (a : Account) where
  abbrev hash : Text
  hash = hash_password x password

  -- The transaction as it begins, with no fault to come.
  abbrev begun : Work
  begun = record { accounts = s.accounts; next_id = s.next_id; faults = []; now = s.link.now }

  abbrev touched : Work
  touched = record begun { accounts = seen a.user_id s.link.now s.accounts }

  login_body-runs :
      first_row (is_account name hash) s.accounts ≡ some a
      → login_body name hash begun ≡ done (committed (some a)) touched
  unfolding login_body statement touch_account
  login_body-runs sel =
      ap
        (λ f.
          (elim f as (λ _. Task Work (Ending (Option Account))) [
            | none ↦ give (aborted none)
            | some b ↦ statement (touch_account b.user_id) >> give (committed (some b))
          ])
            begun)
        sel

  abbrev left_in : DbPool → Store
  left_in p = record s { accounts = seen a.user_id s.link.now s.accounts; faults = []; pool = p }

  -- The handler on a request with these fields.
  abbrev attempt : Field Text → Field Text → Tried Store Answer
  attempt u p = rescue (refused database_error) (refused internal_error) (
      (text_field u >>= λ n. text_field p >>= λ w.
      with_work (login_body n (hash_password x w)) >>= λ row. give (welcome x n s.link.now row))
        s)

  abbrev answered : Tried Store (Option Account) → Tried Store Answer
  answered r =
      rescue (refused database_error) (refused internal_error)
        (elim r as (λ _. Tried Store Answer) [
          | done row s' ↦ done (welcome x name s.link.now row) s'
          | raised e s' ↦ raised e s'
        ])

  -- The first row of a name is selected where its password has this hash.
  first_row-account :
      (front back : List Account)
      → All (λ b. (b.username == name) ≡ false) front
      → a.username ≡ name
      → a.password ≡ hash
      → first_row (is_account name hash) (front ++ a ∷ back) ≡ some a
  unfolding first_row
  first_row-account [] back none_before n h = ground (arith, n, h)
  first_row-account (b ∷ bs) back (other, others) n h =
      rw other (first_row-account bs back others n h)

  admitted :
      (q : AuthRequest) (c : ℕ) (p : DbPool)
      → q.username ≡ given name
      → q.password ≡ given password
      → get_connection s.link s.pool ≡ ran c p
      → s.faults ≡ []
      → first_row (is_account name hash) s.accounts ≡ some a
      → handle_login x q s ≡ done (welcome x name s.link.now (some a)) (left_in p)
  unfolding handle_login login_checked finish
  admitted q c p u w lent calm sel =
      ap (λ f. attempt f q.password) u
      ∙ ap (attempt (given name)) w
      ∙ ap answered (with_work-runs (login_body name hash) s c p lent calm)
      ∙ ap (λ r. answered (finish (record s { pool = p }) r)) (login_body-runs sel)

  -- Where a connection is got and no statement fails, a login with the name and the password of a
  -- stored account, the first of its name, is answered with that account's id, name, rating, games and
  -- wins and the token of its id and name, valid for an hour; the account is given the time, and nothing
  -- else but the pool changes.
  pub handle_login_admits :
      (q : AuthRequest) (c : ℕ) (p : DbPool) (front back : List Account)
      → q.username ≡ given name
      → q.password ≡ given password
      → get_connection s.link s.pool ≡ ran c p
      → s.faults ≡ []
      → s.accounts ≡ front ++ a ∷ back
      → All (λ b. (b.username == name) ≡ false) front
      → a.username ≡ name
      → a.password ≡ to_hex (x.sha256 password)
      → handle_login x q s ≡ done (logged_in (welcomed x a name s.link.now)) (left_in p)
  unfolding generate_auth_token hash_password
  handle_login_admits q c p front back u w lent calm rows first named hashed =
      admitted q c p u w lent calm (
        ap (first_row (is_account name hash)) rows
        ∙ first_row-account front back first named hashed)
