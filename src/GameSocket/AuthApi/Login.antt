-- ===== src/GameSocket/AuthApi/Login.antt =====
-- `handle_login` of GameSocketServer/src/api/auth_api.cpp: what an answer that logs in rests on.

use mathlib.Core.List.{mem-cons_self, mem-cons_of_mem}
use socket_communication.GameSocket.Effects.{
  Failure, Task, ◌>>=◌, ◌>>◌, give, Leads, Leads-bind, Leads-rescue,
}
use socket_communication.GameSocket.Store.{
  Account, Store, Work, Ending, statement, select, with_work, touch_account, committed, aborted,
}
use socket_communication.GameSocket.Store.Rules.{statement-Leads, Leaves, with_work-Leads}
use socket_communication.GameSocket.AuthApi.{
  AuthRequest, Welcome, Answer, Library, hash_password, generate_auth_token, text_field, is_account,
  login_body, welcome, login_checked, handle_login, database_error, internal_error, refused,
  registered, logged_in,
}
use socket_communication.Common.{
  ℤ, ◌==◌, nat_eq, int_eq, bytes_eq, string_eq, Bool-cases, update_rows, first_row, first_row-holds,
  bytes_of, to_hex, ℕ, ◌+◌, ◌≡◌, refl, sym, ap, subst, inl, inr, Bool, true, Option, none, some,
  List, [], ◌∷◌, ◌++◌, Mem, arith,
}
use socket_communication.Db.{Text, room_status_eq, game_status_eq}
use socket_communication.Protocol.{Field, absent, mistyped, given}

-- The rows after a login of `a`: the rows with its id have a new time.
abbrev pub seen : ℤ → ℕ → List Account → List Account
seen id now = update_rows (λ a. a.user_id == id) (λ a. record a { last_login = some now })

-- The text of a token: what the payload names, a dot, and the signature in hexadecimal digits. It ends
-- an hour after it was made.
abbrev pub token_text : Library → ℤ → Text → ℕ → Text
token_text x id name now =
    let claims : Text =
      x.dump_payload (record { user_id = id; username = name; exp = now + 3600; iat = now }) in
    claims ++ (b'.' ∷ to_hex (x.hmac (bytes_of "your_secret_key_here") claims))

-- What an answer that logs in holds: each field of the account, and a token in its name.
abbrev pub welcomed : Library → Account → Text → ℕ → Welcome
welcomed x a name now = record {
  user_id = a.user_id;
  username = a.username;
  rating = a.rating;
  total_games = a.total_games;
  total_wins = a.total_wins;
  token = token_text x a.user_id name now;
}

-- A row that name and password select among `before`, and what the answer takes from it.
pub record Grants (x : Library) (name password : Text) (now : ℕ) (before after : List Account)
    (a : Account) (w : Welcome) : Type 0 where
  pub stored : Mem a before
  pub named : a.username ≡ name
  pub hashed : a.password ≡ to_hex (x.sha256 password)
  pub described : w ≡ welcomed x a name now
  pub touched : after ≡ seen a.user_id now before

abbrev pub LoginEnds : Library → AuthRequest → ℕ → List Account → Answer → List Account → Type 0
LoginEnds x q now before (refused r) after = after ≡ before
LoginEnds x q now before (registered id name) after = ⊥
LoginEnds x q now before (logged_in w) after =
    (name : Text) × (password : Text) × (q.username ≡ given name)
    × (q.password ≡ given password)
    × ((a : Account) × Grants x name password now before after a w)

-- The row that the transaction of a login ends with.
abbrev Selected : Text → Text → ℕ → List Account → Option Account → List Account → Type 0
Selected name hash now before none after = after ≡ before
Selected name hash now before (some a) after =
    (first_row (is_account name hash) before ≡ some a) × (after ≡ seen a.user_id now before)

first_row-Mem {ℓ} :
    {A : Type ℓ} (p : A → Bool) (xs : List A) (x : A) → first_row p xs ≡ some x → Mem x xs
unfolding first_row
first_row-Mem p [] x e = cc
first_row-Mem p (y ∷ xs) x e = elim (Bool-cases (p y)) [
  | inl h ↦
      let same : y ≡ x = ground (arith, e, h) in subst (λ z. Mem z (y ∷ xs)) same mem-cons_self
  | inr h ↦ mem-cons_of_mem y (first_row-Mem p xs x (ground (arith, e, h)))
]

is_account-fields :
    (name hash : Text) (a : Account)
    → is_account name hash a ≡ true
    → (a.username ≡ name) × (a.password ≡ hash)
is_account-fields name hash a e = ground arith

module _ (name hash : Text) (before : List Account) where
  login_body-Selected :
      (w : Work)
      → w.accounts ≡ before
      → Leads
          (Leaves (Selected name hash w.now before) before)
          (λ _ _. Unit {0})
          (login_body name hash w)
  unfolding login_body touch_account
  login_body-Selected w e =
      Leads-bind Found (λ _ _. Unit {0}) (Leaves Goal before)
        (select (first_row (is_account name hash))) _ w
        (statement-Leads Found (λ _ _. Unit {0}) _ w
          (λ fs. (refl, e, ap (first_row (is_account name hash)) e)) (λ f fs. tt))
        next
    where
      Goal : Option Account → List Account → Type 0
      Goal = Selected name hash w.now before

      Found : Option Account → Work → Type 0
      Found found w' =
          (w'.now ≡ w.now)
          × (w'.accounts ≡ before)
          × (found ≡ first_row (is_account name hash) before)

      next :
          (found : Option Account) (w' : Work)
          → Found found w'
          → Leads
              (Leaves Goal before)
              (λ _ _. Unit {0})
              (elim found as (λ _. Task Work (Ending (Option Account))) [
                | none ↦ give {S = Work} {A = Ending (Option Account)} (aborted none)
                | some a ↦
                    statement (touch_account a.user_id)
                    >> give {S = Work} {A = Ending (Option Account)} (committed (some a))
              ]
                w')
      next none w' h = refl
      next (some a) w' (t, same, sel) =
          Leads-bind (λ _ w''. w''.accounts ≡ seen a.user_id w.now before) (λ _ _. Unit {0})
            (Leaves Goal before) (statement (touch_account a.user_id)) _ w'
            (statement-Leads _ (λ _ _. Unit {0}) (touch_account a.user_id) w'
              (λ fs. rw (t, same) refl) (λ f fs. tt))
            (λ u w'' k. (sym sel, k))

-- The answer made of the row that the transaction ended with.
welcome-ends :
    (x : Library) (q : AuthRequest) (name password : Text) (now : ℕ) (before after : List Account)
    (found : Option Account)
    → q.username ≡ given name
    → q.password ≡ given password
    → Selected name (hash_password x password) now before found after
    → LoginEnds x q now before (welcome x name now found) after
unfolding generate_auth_token hash_password
welcome-ends x q name password now before after none u p h = h
welcome-ends x q name password now before after (some a) u p (sel, touched) =
    let (named, hashed) =
      is_account-fields name (hash_password x password) a
        (first_row-holds (is_account name (hash_password x password)) before a sel) in
    (
      name,
      password,
      u,
      p,
      (
        a,
        record {
          stored = first_row-Mem (is_account name (hash_password x password)) before a sel;
          named = named;
          hashed = hashed;
          described = refl;
          touched = touched;
        },
      ),
    )

-- A call of `handle_login` that logs in was given a name and a password that a stored account has,
-- the password by its hash; the answer holds that account's id, name, rating, games and wins and the
-- token of its id and name, valid for an hour, and its row is given the time of the login. Every other answer, and every exception, leaves the rows as they were.
pub handle_login-LoginEnds :
    (x : Library) (q : AuthRequest) (s : Store)
    → Leads
        (λ a s'. LoginEnds x q s.link.now s.accounts a s'.accounts)
        (λ _ s'. s'.accounts ≡ s.accounts)
        (handle_login x q s)
unfolding handle_login login_checked
handle_login-LoginEnds x q s =
    Leads-rescue Goal Same (refused database_error) (refused internal_error) (login_checked x q s)
      (λ s' e. e) (λ s' e. e) (fields q.username q.password refl refl)
  where
    Goal : Answer → Store → Type 0
    Goal a s' = LoginEnds x q s.link.now s.accounts a s'.accounts

    Same : Failure → Store → Type 0
    Same _ s' = s'.accounts ≡ s.accounts

    fields :
        (u p : Field Text)
        → q.username ≡ u
        → q.password ≡ p
        → Leads Goal Same (
            (text_field u >>= λ name. text_field p >>= λ password.
            with_work (login_body name (hash_password x password)) >>= λ found.
            give (welcome x name s.link.now found))
              s)
    fields absent p e e' = refl
    fields mistyped p e e' = refl
    fields (given name) absent e e' = refl
    fields (given name) mistyped e e' = refl
    fields (given name) (given password) e e' =
        let hash = hash_password x password in
        Leads-bind (λ found s'. Selected name hash s.link.now s.accounts found s'.accounts) Same
          Goal (with_work (login_body name hash)) (λ found. give (welcome x name s.link.now found))
          s
          (with_work-Leads (Selected name hash s.link.now s.accounts) (login_body name hash) s
            (λ w same now.
              subst
                (λ t.
                  Leads (Leaves (Selected name hash t s.accounts) s.accounts) (λ _ _. Unit {0})
                    (login_body name hash w))
                now (login_body-Selected name hash s.accounts w same)))
          (λ found s' h.
            welcome-ends x q name password s.link.now s.accounts s'.accounts found e e' h)
