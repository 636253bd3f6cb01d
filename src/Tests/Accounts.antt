-- ===== src/Tests/Accounts.antt =====
-- The accounts.

use socket_communication.Common.{nat_eq, bytes_eq, first_row, Ends, ran, ◌≡◌, refl, some, [], ◌∷◌}
use socket_communication.Db.{query, run_work}
use socket_communication.DbPool.{get_connection, return_connection}
use socket_communication.Protocol.{Request, given}
use socket_communication.UserRepository.{find_by_username}
use socket_communication.AuthService.{login_user}
use socket_communication.AuthService.Login.{LogsIn, Anything, login_user-LogsIn}
use socket_communication.Tests.{alice, some_tables, some_db, asks, some_external}

abbrev knocks : Request
knocks = record asks { user_name = given alice.user_name; password = given (b'x' ∷ []) }

abbrev guesses : Request
guesses = record knocks { password = given (b'y' ∷ []) }

login_user-LogsIn_example :
    Ends
      (LogsIn some_external knocks some_tables)
      Anything
      (login_user some_external knocks some_db)
login_user-LogsIn_example = login_user-LogsIn some_external knocks some_db

alice_found : find_by_username alice.user_name some_db ≡ ran (some alice) some_db
unfolding find_by_username run_work get_connection return_connection query first_row bytes_eq nat_eq
alice_found = refl
