-- ===== src/GameSocket/UserDao.antt =====
-- GameSocketServer/src/db/user_dao.cpp: the methods of UserDao. Each catches every exception and
-- answers a fallback.

pub mod Top
pub mod Stats
use Prim.Native.Nat.{◌^◌}
use socket_communication.GameSocket.Effects.{
  Task, ◌>>=◌, ◌>>◌, give, rescue, sql_error, done, raised,
}
use socket_communication.GameSocket.Store.{
  Account, Store, Work, statement, select, with_work, insert_account, touch_account, committed,
}
use socket_communication.Common.{
  ℤ, lt_int, minus_one, pos, negsuc, if◌then◌else◌, ltb, ◌==◌, nat_eq, int_eq, bytes_eq, string_eq,
  update_rows, first_row, any_row, take, ℕ, suc, ◌-◌, Bool, true, false, not, ◌&&◌, ◌||◌, Option,
  none, some, List, [], ◌∷◌, map,
}
use socket_communication.Db.{Text, room_status_eq, game_status_eq}

pub record UserInfo : Type 0 where
  pub user_id : ℤ
  pub username : Text
  pub rating : ℤ
  pub total_games : ℕ
  pub total_wins : ℕ
  pub created_at : ℕ
  pub last_login : Option ℕ

abbrev pub user_info : Account → UserInfo
user_info a = record {
  user_id = a.user_id;
  username = a.username;
  rating = a.rating;
  total_games = a.total_games;
  total_wins = a.total_wins;
  created_at = a.created_at;
  last_login = a.last_login;
}

abbrev pub info_of : Option Account → Option UserInfo
info_of none = none
info_of (some a) = some (user_info a)

unfoldable pub find_by_id : ℤ → Task Store (Option UserInfo)
find_by_id id s = rescue none none (
    with_work (do row ← select (first_row (λ a. a.user_id == id)); give (committed (info_of row)))
      s)

unfoldable pub find_by_username : Text → Task Store (Option UserInfo)
find_by_username name s = rescue none none (
    with_work
      (do row ← select (first_row (λ a. a.username == name)); give (committed (info_of row))) s)

unfoldable pub create : Text → Text → Task Store ℤ
create name hash s =
    rescue minus_one minus_one
      (with_work (do id ← statement (insert_account name hash); give (committed id)) s)

-- UPDATE Users SET rating = … WHERE user_id = …
unfoldable pub rate_account : ℤ → ℤ → Task Work Bool
rate_account id new_rating w = done (any_row (λ a. a.user_id == id) w.accounts) (record w {
  accounts = update_rows (λ a. a.user_id == id) (λ a. record a { rating = new_rating }) w.accounts;
})

unfoldable pub update_rating : ℤ → ℤ → Task Store Bool
unfolding rate_account
update_rating id new_rating s =
    rescue false false
      (with_work (do found ← statement (rate_account id new_rating); give (committed found)) s)

-- One game more, and one win more where it is won.
abbrev pub count_game : Bool → Account → Account
count_game true a = record a { total_games = suc a.total_games; total_wins = suc a.total_wins }
count_game false a = record a { total_games = suc a.total_games }

-- The largest value of an INT column.
abbrev pub max_int : ℕ
max_int = 2 ^ 31 - 1

abbrev pub overflows : ℤ → Bool → Account → Bool
overflows id is_win a =
    a.user_id == id
    && (not (ltb a.total_games max_int) || (is_win && not (ltb a.total_wins max_int)))

-- UPDATE Users SET total_games = total_games + 1, … WHERE user_id = …: a sum that an INT does not
-- hold is an error.
unfoldable pub count_account : ℤ → Bool → Task Work Bool
count_account id is_win w =
    if any_row (overflows id is_win) w.accounts
    then raised sql_error w
    else done (any_row (λ a. a.user_id == id) w.accounts)
        (record w { accounts = update_rows (λ a. a.user_id == id) (count_game is_win) w.accounts })

unfoldable pub update_stats : ℤ → Bool → Task Store Bool
unfolding count_account
update_stats id is_win s =
    rescue false false
      (with_work (do found ← statement (count_account id is_win); give (committed found)) s)

unfoldable pub update_last_login : ℤ → Task Store Bool
update_last_login id s =
    rescue false false
      (with_work (do found ← statement (touch_account id); give (committed found)) s)

-- ORDER BY rating DESC.
unfoldable pub insert_rated : Account → List Account → List Account
insert_rated a [] = a ∷ []
insert_rated a (b ∷ bs) =
    let later = insert_rated a bs in if lt_int a.rating b.rating then b ∷ later else a ∷ b ∷ bs

unfoldable pub by_rating : List Account → List Account
unfolding insert_rated
by_rating [] = []
by_rating (a ∷ as') = insert_rated a (by_rating as')

-- SELECT … ORDER BY rating DESC LIMIT …: a negative limit is an error.
unfoldable pub top_accounts : ℤ → Task Work (List Account)
unfolding by_rating take
top_accounts (pos n) w = done (take n (by_rating w.accounts)) w
top_accounts (negsuc n) w = raised sql_error w

unfoldable pub get_top_players : ℤ → Task Store (List UserInfo)
unfolding top_accounts
get_top_players limit s =
    rescue [] [] (
      with_work (do rows ← statement (top_accounts limit); give (committed (map user_info rows))) s)
