-- ===== src/GameSocket/AuthApi.antt =====
-- GameSocketServer/src/api/auth_api.cpp: registration and login.

pub mod Register
pub mod Login
pub mod Admission
pub mod Connections
use socket_communication.GameSocket.Effects.{
  Task, ◌>>=◌, ◌>>◌, give, fail, rescue, other_error, undefined_behaviour,
}
use socket_communication.GameSocket.Store.{
  Account, Store, Work, Ending, statement, select, with_work, insert_account, touch_account,
  committed, aborted,
}
use socket_communication.Common.{
  ℤ, if◌then◌else◌, ltb, ◌==◌, nat_eq, int_eq, bytes_eq, string_eq, length, is_empty, first_row,
  any_row, bytes_of, to_hex, ℕ, ◌+◌, String, Bool, ◌&&◌, ◌||◌, Option, none, some, List, ◌∷◌, ◌++◌,
}
use socket_communication.Db.{Text, room_status_eq, game_status_eq}
use socket_communication.Protocol.{Field, absent, mistyped, given}

-- The fields of a request that the server reads.
pub record AuthRequest : Type 0 where
  pub action : Field String
  pub username : Field Text
  pub password : Field Text

-- Why an answer has the status "error".
pub data Reason : Type 0 where
  unknown_action unknown_auth_action no_handler invalid_format : Reason
  bad_username short_password username_taken wrong_credentials : Reason
  database_error internal_error : Reason

-- What the token of a login is made from.
pub record Payload : Type 0 where
  pub user_id : ℤ
  pub username : Text
  pub exp : ℕ
  pub iat : ℕ

pub record Welcome : Type 0 where
  pub user_id : ℤ
  pub username : Text
  pub rating : ℤ
  pub total_games : ℕ
  pub total_wins : ℕ
  pub token : Text

pub data Answer : Type 0 where
  refused : Reason → Answer
  registered : ℤ → Text → Answer
  logged_in : Welcome → Answer

-- What the program calls and does not implement: OpenSSL's SHA-256 and HMAC (their digests as
-- bytes), and the JSON library's reader and writer.
pub record Library : Type 0 where
  pub sha256 : Text → List ℕ
  pub hmac : Text → Text → List ℕ
  pub dump_payload : Payload → Text
  pub dump : Answer → Text
  pub parse : Text → Option AuthRequest
  pub parse_answer : Text → Option Answer

unfoldable pub hash_password : Library → Text → Text
unfolding to_hex
hash_password x password = to_hex (x.sha256 password)

abbrev pub secret_key : Text
secret_key = bytes_of "your_secret_key_here"

unfoldable pub generate_auth_token : Library → ℤ → Text → ℕ → Text
unfolding to_hex
generate_auth_token x id name now =
    let payload =
      x.dump_payload (record { user_id = id; username = name; exp = now + 3600; iat = now }) in
    payload ++ (b'.' ∷ to_hex (x.hmac secret_key payload))

-- A conversion of `request["…"]`. The request is const, and a key that is missing from a const
-- object is undefined behaviour.
abbrev pub text_field {ℓ} : {S : Type ℓ} → Field Text → Task S Text
text_field absent = fail undefined_behaviour
text_field mistyped = fail other_error
text_field (given t) = give t

-- The transaction of `handle_register`.
unfoldable pub register_body : Text → Text → Task Work (Ending Answer)
unfolding insert_account
register_body name hash = do
  taken ← select (any_row (λ a. a.username == name))
  if taken
      then give (aborted (refused username_taken))
      else do id ← statement (insert_account name hash); give (committed (registered id name))

abbrev pub is_bad_username : Text → Bool
is_bad_username name = is_empty name || (ltb (length name) 3 || ltb 20 (length name))

abbrev pub is_short_password : Text → Bool
is_short_password password = is_empty password || ltb (length password) 6

-- The `try` block of `handle_register`.
unfoldable pub register_checked : Library → AuthRequest → Task Store Answer
unfolding register_body
register_checked x q = do
  name ← text_field q.username
  password ← text_field q.password
  if is_bad_username name
      then give (refused bad_username)
      else if is_short_password password
      then give (refused short_password)
      else with_work (register_body name (hash_password x password))

unfoldable pub handle_register : Library → AuthRequest → Task Store Answer
unfolding register_checked
handle_register x q s =
    rescue (refused database_error) (refused internal_error) (register_checked x q s)

-- The row that username = … AND password = … selects.
abbrev pub is_account : Text → Text → Account → Bool
is_account name hash a = a.username == name && a.password == hash

-- The transaction of `handle_login`.
unfoldable pub login_body : Text → Text → Task Work (Ending (Option Account))
unfolding touch_account
login_body name hash = do
  found ← select (first_row (is_account name hash))
  elim found [
    | none ↦ give (aborted none)
    | some a ↦ do statement (touch_account a.user_id); give (committed (some a))
  ]

abbrev pub welcome : Library → Text → ℕ → Option Account → Answer
welcome x name now none = refused wrong_credentials
welcome x name now (some a) = logged_in (record {
  user_id = a.user_id;
  username = a.username;
  rating = a.rating;
  total_games = a.total_games;
  total_wins = a.total_wins;
  token = generate_auth_token x a.user_id name now;
})

-- The `try` block of `handle_login`.
unfoldable pub login_checked : Library → AuthRequest → Task Store Answer
unfolding login_body
login_checked x q s =
    (do
      name ← text_field q.username
      password ← text_field q.password
      found ← with_work (login_body name (hash_password x password))
      give (welcome x name s.link.now found))
      s

unfoldable pub handle_login : Library → AuthRequest → Task Store Answer
unfolding login_checked
handle_login x q s = rescue (refused database_error) (refused internal_error) (login_checked x q s)

-- The action is there: `process_request` has read it.
unfoldable pub handle_request : Library → AuthRequest → Task Store Answer
unfolding handle_register handle_login
handle_request x q = elim q.action [
  | absent ↦ fail undefined_behaviour
  | mistyped ↦ fail other_error
  | given a ↦
      if a == "register"
      then handle_register x q
      else if a == "login"
      then handle_login x q
      else give (refused unknown_auth_action)
]
