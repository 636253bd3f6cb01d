-- ===== src/Db/Schema.antt =====
-- MatchingServer/db-init.sql: the tables, a record for each row. SERIAL columns draw from a
-- counter. A text is the list of its UTF-8 bytes. Foreign keys, primary keys and UNIQUE columns
-- refuse a row, which the C++ client sees as an exception.

use socket_communication.Common.{
  ℤ, Eq, if◌then◌else◌, ltb, leb, ◌==◌, nat_eq, int_eq, bytes_eq, string_eq, count_rows, any_row,
  Action, ran, threw, ℕ, Bool, not, ◌&&◌, ◌||◌, Option, List, [], ◌∷◌, ◌++◌,
}

abbrev pub Text : Type 0
Text = List ℕ

pub data RoomStatus : Type 0 where
  waiting game_in_progress terminated : RoomStatus

pub data GameStatus : Type 0 where
  in_progress completed : GameStatus

pub RoomStatus-discrete : Discrete RoomStatus
RoomStatus-discrete = hlevel

pub GameStatus-discrete : Discrete GameStatus
GameStatus-discrete = hlevel

pub record User : Type 0 where
  pub user_id : ℤ
  pub user_name : Text
  pub nick_name : Text
  pub password_hash : Text
  pub created_at : ℕ
  pub last_login : ℕ

pub record Room : Type 0 where
  pub room_id : ℤ
  pub room_name : Text
  pub host_id : ℤ
  pub ip_address : Text
  pub port : ℤ
  pub max_players : ℤ
  pub status : RoomStatus
  pub created_at : ℕ

-- A row of room_users.
pub record Member : Type 0 where
  pub room : ℤ
  pub user : ℤ
  pub joined_at : ℕ

pub record Game : Type 0 where
  pub game_id : ℤ
  pub room : ℤ
  pub map_id : ℤ
  pub status : GameStatus
  pub started_at : ℕ
  pub completed_at : Option ℕ

pub record Tables : Type 0 where
  pub users : List User
  pub maps : List ℤ
  pub rooms : List Room
  pub room_users : List Member
  pub games : List Game
  pub next_user : ℕ
  pub next_game : ℕ
  -- LOWER, as the database's locale computes it
  pub lower : Text → Text

unfoldable pub has_user : Tables → ℤ → Bool
has_user t u = any_row (λ r. r.user_id == u) t.users

unfoldable pub has_room : Tables → ℤ → Bool
has_room t r = any_row (λ x. x.room_id == r) t.rooms

unfoldable pub has_map : Tables → ℤ → Bool
has_map t m = any_row (λ x. x == m) t.maps

-- Whether a UTF-8 text fits a VARCHAR of this many characters: all bytes but 0x80 to 0xBF start one.
unfoldable pub fits : ℕ → Text → Bool
unfolding count_rows
fits width t = leb (count_rows (λ c. ltb c 0x80 || leb 0xC0 c) t) width

-- SELECT COUNT(*) FROM room_users WHERE room_id = …
unfoldable pub players : ℤ → List Member → ℕ
players r ms = count_rows (λ m. m.room == r) ms

unfoldable pub is_member : ℤ → ℤ → List Member → Bool
is_member r u ms = any_row (λ m. m.room == r && m.user == u) ms

-- INSERT INTO room_users: the primary key and both foreign keys are checked.
unfoldable pub insert_member : ℤ → ℤ → ℕ → Action Tables (Unit {0})
insert_member r u now t =
    if not (is_member r u t.room_users) && (has_room t r && has_user t u)
    then ran tt (record t {
      room_users = t.room_users ++ record { room = r; user = u; joined_at = now } ∷ [];
    })
    else threw t

instance unfoldable pub room_status_eq : Eq RoomStatus
unfolding RoomStatus-discrete
room_status_eq = record { dec = RoomStatus-discrete }

instance unfoldable pub game_status_eq : Eq GameStatus
unfolding GameStatus-discrete
game_status_eq = record { dec = GameStatus-discrete }
