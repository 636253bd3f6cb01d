-- ===== src/AuthService/Consistency.antt =====
-- The services of MatchingServer/src/service/auth_service.cpp leave the rooms as they were.

use socket_communication.Common.{
  ℤ, lt_int, minus_one, pos, if◌then◌else◌, ltb, ◌==◌, nat_eq, int_eq, bytes_eq, string_eq, length,
  Action, ◌>>=◌, pure, not, ◌||◌, Option, none, some,
}
use socket_communication.Db.{User, Text, room_status_eq, game_status_eq, Db}
use socket_communication.Protocol.{
  Request, Response, contains, name_taken, not_registered, unknown_user, refused, registered,
}
use socket_communication.UserRepository.{find_by_username, create_user, update_last_login}
use socket_communication.UserRepository.Consistency.{
  Steady, bind-Steady, get-Steady, if-Steady, find_by_username-Steady, create_user-Steady,
  update_last_login-Steady, rename-Steady,
}
use socket_communication.AuthService.{
  External, hash_password, verify_password, is_valid_user_name, is_valid_nick_name,
  credentials_missing, register_new, register_user, login_found, login_user, check_in,
  register_and_check_in, register_check_and_login, update_nick_name,
}
use socket_communication.Controllers.{handle_auth}

register_new-Steady : (x : External) (name password : Text) → Steady (register_new x name password)
unfolding register_new
register_new-Steady x name password =
    bind-Steady (find_by_username name) _ (find_by_username-Steady name) found
  where
    found :
        (o : Option User)
        → Steady (elim o as (λ _. Action Db Response) [
          | some u ↦ pure (refused name_taken)
          | none ↦ create_user name (hash_password x password) x.default_nick >>= λ id.
              pure (if lt_int id (pos 0) then refused not_registered else registered id name)
        ])
    found (some u) = λ db c. c
    found none = bind-Steady _ _ (create_user-Steady name _ _) (λ id db c. c)

register_user-Steady : (x : External) (q : Request) → Steady (register_user x q)
unfolding register_user
register_user-Steady x q =
    if-Steady (credentials_missing q) _ _ (λ db c. c)
      (get-Steady q.user_name _ (λ name.
        if-Steady (not (is_valid_user_name name)) _ _ (λ db c. c)
          (get-Steady q.password _ (λ password.
            if-Steady (ltb (length password) 6) _ _ (λ db c. c)
              (register_new-Steady x name password)))))

login_user-Steady : (x : External) (q : Request) → Steady (login_user x q)
unfolding login_user login_found
login_user-Steady x q =
    if-Steady (credentials_missing q) _ _ (λ db c. c)
      (get-Steady q.user_name _
        (λ name. bind-Steady (find_by_username name) _ (find_by_username-Steady name) found))
  where
    found :
        (o : Option User)
        → Steady (elim o as (λ _. Action Db Response) [
          | none ↦ pure (refused unknown_user)
          | some u ↦ login_found x q.password u
        ])
    found none = λ db c. c
    found (some u) = get-Steady q.password _ (λ password.
        if-Steady (not (verify_password x password u.password_hash)) _ _ (λ db c. c)
          (bind-Steady (update_last_login u.user_id) _ (update_last_login-Steady u.user_id)
            (λ b db c. c)))

check_in-Steady : (name : Text) (id : ℤ) → Steady (check_in name id)
unfolding check_in
check_in-Steady name id =
    bind-Steady (find_by_username name) _ (find_by_username-Steady name)
      (λ o. bind-Steady (update_last_login id) _ (update_last_login-Steady id) (λ b db c. c))

register_check_and_login-Steady :
    (x : External) (q : Request) → Steady (register_check_and_login x q)
unfolding register_check_and_login register_and_check_in
register_check_and_login-Steady x q =
    if-Steady (credentials_missing q) _ _ (λ db c. c)
      (get-Steady q.user_name _
        (λ name. bind-Steady (find_by_username name) _ (find_by_username-Steady name) (found name)))
  where
    found :
        (name : Text) (o : Option User)
        → Steady (elim o as (λ _. Action Db Response) [
          | none ↦ register_and_check_in x q.password name
          | some u ↦ check_in name minus_one
        ])
    found name (some u) = check_in-Steady name minus_one
    found name none = get-Steady q.password _ (λ password.
        bind-Steady _ _ (create_user-Steady name _ _)
          (λ id. if-Steady (lt_int id (pos 0)) _ _ (λ db c. c) (check_in-Steady name id)))

update_nick_name-Steady : (x : External) (q : Request) → Steady (update_nick_name x q)
unfolding update_nick_name
update_nick_name-Steady x q =
    if-Steady (not (contains q.user_id) || not (contains q.nick_name)) _ _ (λ db c. c)
      (get-Steady q.nick_name _ (λ nick.
        if-Steady (not (is_valid_nick_name x nick)) _ _ (λ db c. c)
          (get-Steady q.user_id _ (λ id. bind-Steady _ _ (rename-Steady id nick) (λ b db c. c)))))

-- Whatever the request and whatever fails, the account services leave consistent rooms consistent.
pub handle_auth-Steady : (x : External) (q : Request) → Steady (handle_auth x q)
unfolding handle_auth
handle_auth-Steady x q = get-Steady q.action _ (λ a.
    if-Steady (a == "register") _ _ (register_user-Steady x q) (
      if-Steady (a == "login") _ _ (login_user-Steady x q) (
        if-Steady (a == "SSAFYlogin") _ _ (register_check_and_login-Steady x q)
          (if-Steady (a == "updateNickName") _ _ (update_nick_name-Steady x q) (λ db c. c)))))
