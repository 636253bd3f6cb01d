-- ===== src/UserRepository.antt =====
-- MatchingServer/src/repository/user_repository.cpp: the methods of UserRepositoryImpl. A JSON
-- object with a `userId` of -1 is `none`.

pub mod Consistency
use socket_communication.Common.{
  ℤ, minus_one, pos, if◌then◌else◌, ◌==◌, nat_eq, int_eq, bytes_eq, string_eq, update_rows,
  first_row, any_row, Action, ◌>>=◌, ◌>>◌, pure, ran, threw, ℕ, suc, Bool, true, false, not, ◌||◌,
  Option, none, some, [], ◌∷◌, ◌++◌,
}
use socket_communication.Db.{
  User, Tables, Text, fits, room_status_eq, game_status_eq, Close, Db, query, execute, run_work,
  commit, abort,
}

abbrev pub same_name : Tables → Text → User → Bool
same_name t name u = t.lower u.user_name == t.lower name

-- The row that LOWER(user_name) = LOWER(…) selects.
abbrev pub user_named : Text → Tables → Option User
user_named name t = first_row (same_name t name) t.users

-- A user that was not found aborts the transaction.
abbrev pub close_found : Option User → Close (Option User)
close_found none = abort none
close_found (some u) = commit (some u)

unfoldable pub find_by_username : Text → Action Db (Option User)
find_by_username name = run_work none do row ← query (user_named name); pure (close_found row)

-- INSERT INTO users … RETURNING user_id, with the UNIQUE column and its width checked. The nickname is the
-- column's DEFAULT, a random text that the database draws.
unfoldable pub insert_user : Text → Text → Text → ℕ → Action Tables ℤ
unfolding fits
insert_user name hash nick now t =
    if not (fits 50 name) || any_row (λ u. u.user_name == name) t.users
    then threw t
    else ran (pos t.next_user) (record t {
      users =
          t.users
          ++ record {
            user_id = pos t.next_user;
            user_name = name;
            nick_name = nick;
            password_hash = hash;
            created_at = now;
            last_login = now;
          }
            ∷ [];
      next_user = suc t.next_user;
    })

unfoldable pub create_user : Text → Text → Text → Action Db ℤ
unfolding insert_user
create_user name hash nick =
    run_work minus_one do id ← execute (insert_user name hash nick); pure (commit id)

-- UPDATE users SET last_login = CURRENT_TIMESTAMP WHERE user_id = … RETURNING user_id.
unfoldable pub touch_user : ℤ → ℕ → Action Tables Bool
touch_user id now t = ran (any_row (λ u. u.user_id == id) t.users) (record t {
  users = update_rows (λ u. u.user_id == id) (λ u. record u { last_login = now }) t.users;
})

unfoldable pub update_last_login : ℤ → Action Db Bool
unfolding touch_user
update_last_login id = run_work false do done ← execute (touch_user id); pure (commit done)

-- UPDATE users SET nick_name = … WHERE user_id = … RETURNING user_id, with the width checked on a
-- row that changes.
unfoldable pub rename_user : ℤ → Text → ℕ → Action Tables Bool
unfolding fits
rename_user id nick now t =
    if any_row (λ u. u.user_id == id) t.users
    then if fits 16 nick
      then ran true (record t {
        users = update_rows (λ u. u.user_id == id) (λ u. record u { nick_name = nick }) t.users;
      })
      else threw t
    else ran false t

unfoldable pub update_user_nick_name : ℤ → Text → Action Db Bool
unfolding rename_user
update_user_nick_name id nick =
    run_work false do done ← execute (rename_user id nick); pure (commit done)
