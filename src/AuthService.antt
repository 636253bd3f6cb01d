-- ===== src/AuthService.antt =====
-- MatchingServer/src/service/auth_service.cpp and util/password_util.cpp: the user names that are
-- accepted, the password hash, and the methods of AuthServiceImpl. Nothing is caught here: an
-- exception goes to the session.

pub mod Login
pub mod Consistency
use Prim.Native.Nat.{◌/◌, ◌%◌}
use mathlib.Core.Option
use socket_communication.Common.{
  ℤ, lt_int, minus_one, pos, if◌then◌else◌, ltb, leb, ◌==◌, nat_eq, int_eq, bytes_eq, string_eq,
  length, is_empty, Action, ◌>>=◌, ◌>>◌, pure, starts_with, to_hex, ℕ, Bool, true, false, not, ◌&&◌,
  ◌||◌, Option, none, some, List, [], ◌∷◌, map,
}
use socket_communication.Db.{User, Text, room_status_eq, game_status_eq, Db}
use socket_communication.Protocol.{
  Field, Request, Profile, Response, contains, get, fields_missing, invalid_user_name,
  short_password, name_taken, not_registered, unknown_user, wrong_password, invalid_nick_name,
  nick_name_not_changed, refused, registered, logged_in, nick_name_changed,
}
use socket_communication.UserRepository.{
  find_by_username, create_user, update_last_login, update_user_nick_name,
}

-- What the service calls and does not implement: OpenSSL's SHA-256 (its digest as bytes), the match
-- of a nickname with the pattern by `std::regex`, and the database's default nickname.
pub record External : Type 0 where
  pub sha256 : Text → List ℕ
  pub nick_matches : Text → Bool
  pub default_nick : Text

unfoldable pub hash_password : External → Text → Text
unfolding to_hex
hash_password x password = to_hex (x.sha256 password)

unfoldable pub verify_password : External → Text → Text → Bool
unfolding hash_password
verify_password x password hashed = hash_password x password == hashed

-- `name.find(word) != npos`.
unfoldable pub has_word : Text → Text → Bool
unfolding starts_with
has_word word [] = starts_with word []
has_word word (d ∷ t) = let rest = has_word word t in starts_with word (d ∷ t) || rest

-- The text from the first occurrence of a byte on.
unfoldable pub from_byte : ℕ → Text → Text
from_byte b [] = []
from_byte b (c ∷ cs) = let rest = from_byte b cs in if c == b then c ∷ cs else rest

-- The bytes of "mirror".
abbrev pub mirror_word : Text
mirror_word = 109 ∷ 105 ∷ 114 ∷ 114 ∷ 111 ∷ 114 ∷ []

abbrev pub is_alnum : ℕ → Bool
is_alnum c = (leb b'A' c && leb c b'Z') || (leb b'a' c && leb c b'z') || (leb b'0' c && leb c b'9')

abbrev pub is_email_byte : ℕ → Bool
is_email_byte c = is_alnum c || c == b'@' || c == b'.' || c == b'_' || c == b'-' || c == b'+'

unfoldable pub all_bytes : (ℕ → Bool) → Text → Bool
all_bytes p [] = true
all_bytes p (c ∷ cs) = let rest = all_bytes p cs in p c && rest

-- An `@`, and a `.` somewhere behind it.
unfoldable pub is_email : Text → Bool
unfolding from_byte
is_email name = not (is_empty (from_byte b'.' (from_byte b'@' name)))

unfoldable pub is_valid_user_name : Text → Bool
unfolding has_word is_email all_bytes
is_valid_user_name name =
    if is_empty name
    then false
    else if ltb 30 (length name)
    then false
    else if has_word mirror_word name
    then false
    else if is_email name
    then all_bytes is_email_byte name
    else all_bytes is_alnum name

unfoldable pub is_valid_nick_name : External → Text → Bool
is_valid_nick_name x nick = if ltb 24 (length nick) then false else x.nick_matches nick

abbrev pub profile : User → Profile
profile u = record {
  user_id = u.user_id;
  user_name = u.user_name;
  nick_name = u.nick_name;
  created_at = u.created_at;
  last_login = u.last_login;
}

abbrev pub credentials_missing : Request → Bool
credentials_missing q = not (contains q.user_name) || not (contains q.password)

-- `registerUser` from the look-up of the name on.
unfoldable pub register_new : External → Text → Text → Action Db Response
register_new x name password = do
  found ← find_by_username name
  elim found [
    | some u ↦ pure (refused name_taken)
    | none ↦ do
      id ← create_user name (hash_password x password) x.default_nick
      pure (if lt_int id (pos 0) then refused not_registered else registered id name)
  ]

unfoldable pub register_user : External → Request → Action Db Response
unfolding register_new
register_user x q = if credentials_missing q then pure (refused fields_missing) else do
  name ← get q.user_name
  if not (is_valid_user_name name) then pure (refused invalid_user_name) else do
    password ← get q.password
    if ltb (length password) 6 then pure (refused short_password) else register_new x name password

-- `loginUser` once the user is found.
unfoldable pub login_found : External → Field Text → User → Action Db Response
login_found x password_field u = do
  password ← get password_field
  if not (verify_password x password u.password_hash)
      then pure (refused wrong_password)
      else do update_last_login u.user_id; pure (logged_in (some (profile u)))

unfoldable pub login_user : External → Request → Action Db Response
unfolding login_found
login_user x q = if credentials_missing q then pure (refused fields_missing) else do
  name ← get q.user_name
  found ← find_by_username name
  elim found [ none ↦ pure (refused unknown_user) | some u ↦ login_found x q.password u ]

-- The end of `registerCheckAndLogin`: a second look-up, and the login time of `id`.
unfoldable pub check_in : Text → ℤ → Action Db Response
check_in name id = do
  found ← find_by_username name
  update_last_login id
  pure (logged_in (Option.map profile found))

unfoldable pub register_and_check_in : External → Field Text → Text → Action Db Response
unfolding check_in
register_and_check_in x password_field name = do
  password ← get password_field
  id ← create_user name (hash_password x password) x.default_nick
  if lt_int id (pos 0) then pure (refused not_registered) else check_in name id

-- `registerCheckAndLogin`: where the user exists, `userId` stays -1.
unfoldable pub register_check_and_login : External → Request → Action Db Response
unfolding register_and_check_in
register_check_and_login x q = if credentials_missing q then pure (refused fields_missing) else do
  name ← get q.user_name
  found ← find_by_username name
  elim found [ none ↦ register_and_check_in x q.password name | some u ↦ check_in name minus_one ]

unfoldable pub update_nick_name : External → Request → Action Db Response
unfolding is_valid_nick_name
update_nick_name x q =
    if not (contains q.user_id) || not (contains q.nick_name)
    then pure (refused fields_missing)
    else do
      nick ← get q.nick_name
      if not (is_valid_nick_name x nick) then pure (refused invalid_nick_name) else do
        id ← get q.user_id
        done ← update_user_nick_name id nick
        pure (if done then nick_name_changed nick else refused nick_name_not_changed)
