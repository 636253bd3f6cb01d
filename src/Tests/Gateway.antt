-- ===== src/Tests/Gateway.antt =====
-- GameSocketServer on a small database.

use socket_communication.GameSocket.Effects.{reached, Leads, done}
use socket_communication.GameSocket.Store.{Account, Store, statement, with_work}
use socket_communication.GameSocket.AuthApi.{
  AuthRequest, Welcome, Library, hash_password, handle_register, handle_login, handle_request,
  database_error, refused, logged_in,
}
use socket_communication.GameSocket.AuthApi.Connections.{Charged, handle_request-Charged}
use socket_communication.GameSocket.AuthApi.Login.{
  seen, welcomed, LoginEnds, handle_login-LoginEnds,
}
use socket_communication.GameSocket.AuthApi.Admission.{handle_login_admits}
use socket_communication.GameSocket.AuthApi.Register.{IsDigest, Refused, handle_register-Refused}
use socket_communication.GameSocket.UserDao.{UserInfo, get_top_players}
use socket_communication.GameSocket.UserDao.Top.{IsTop, get_top_players-IsTop}
use socket_communication.GameSocket.UserDao.Stats.{Call, creates, counts}
use socket_communication.GameSocket.Session.{
  Client, Event, response_header, write_response, run_events, reading_header, writing, received,
  written,
}
use socket_communication.GameSocket.Session.Framing.{Delivered, joined, any_split_delivers}
use socket_communication.GameSocket.Session.RoundTrip.{
  response_header-Declares, read-write_response,
}
use socket_communication.GameSocket.Session.Bounds.{InBounds, run_events-InBounds}
use socket_communication.Common.{
  pos, nat_eq, bytes_eq, any_row, All, bytes_of, to_hex, ℕ, zero, suc, ◌<◌, ◌≡◌, refl, true, false,
  none, some, List, [], ◌∷◌, ◌++◌, map, arith,
}
use socket_communication.Db.{Text, fits}
use socket_communication.Protocol.{given}
use socket_communication.DbPool.{get_connection}
use socket_communication.DbPool.Slots.{IsValid}
use socket_communication.Tests.{up, two_connections}

-- A digest of `n` bytes.
abbrev sevens : ℕ → List ℕ
sevens zero = []
sevens (suc n) = 7 ∷ sevens n

sevens-octets : (n : ℕ) → All (λ b. b < 256) (sevens n)
sevens-octets zero = tt
sevens-octets (suc n) = (ground arith, sevens-octets n)

abbrev carol_welcome : Welcome
carol_welcome = record {
  user_id = pos 1;
  username = bytes_of "carol";
  rating = pos 1000;
  total_games = 1;
  total_wins = 1;
  token = [];
}

abbrev asks_login : AuthRequest
asks_login = record {
  action = given "login";
  username = given (bytes_of "carol");
  password = given (bytes_of "secret1");
}

abbrev asks_register : AuthRequest
asks_register = record asks_login { action = given "register"; username = given (bytes_of "dave") }

-- Digests of 32 bytes, and a reader that finds a login in every text.
abbrev pub some_library : Library
some_library = record {
  sha256 = λ t. sevens 32;
  hmac = λ k t. sevens 2;
  dump_payload = λ p. p.username;
  dump = λ a. b'a' ∷ [];
  parse = λ t. some asks_login;
  parse_answer = λ t. some (logged_in carol_welcome);
}

abbrev carol : Account
carol = record {
  user_id = pos 1;
  username = bytes_of "carol";
  password = to_hex (sevens 32);
  created_at = 1;
  last_login = none;
  total_games = 1;
  total_wins = 1;
  rating = pos 1000;
}

abbrev erin : Account
erin = record carol { user_id = pos 2; username = bytes_of "erin"; rating = pos 1200 }

abbrev pub some_store : Store
some_store = record {
  accounts = carol ∷ erin ∷ [];
  next_id = 3;
  faults = [];
  pool = two_connections;
  link = up;
}

abbrev visitor : Client
visitor = record {
  session = record { user_id = pos 0; auth_token = []; message = []; phase = reading_header };
  store = some_store;
  sent = [];
}

pub some-IsDigest : (t : Text) → IsDigest (some_library.sha256 t)
some-IsDigest t = record { size = refl; octets = sevens-octets 32 }

-- A registration is refused by the database.
register_refused :
    handle_register some_library asks_register some_store
    ≡ done (refused database_error) (record some_store {
      next_id = 4;
      pool = record two_connections { in_use = true ∷ true ∷ [] };
    })
unfolding handle_register with_work get_connection statement any_row bytes_eq fits hash_password
register_refused = refl

handle_register-Refused_example :
    Leads
      (λ a s'. Refused some_store.accounts a s'.accounts)
      (λ _ s'. s'.accounts ≡ some_store.accounts)
      (handle_register some_library asks_register some_store)
handle_register-Refused_example =
    handle_register-Refused some_library asks_register some_store some-IsDigest

handle_login-LoginEnds_example :
    Leads
      (λ a s'. LoginEnds some_library asks_login up.now some_store.accounts a s'.accounts)
      (λ _ s'. s'.accounts ≡ some_store.accounts)
      (handle_login some_library asks_login some_store)
handle_login-LoginEnds_example = handle_login-LoginEnds some_library asks_login some_store

handle_login_admits_example :
    handle_login some_library asks_login some_store
    ≡ done (logged_in (welcomed some_library carol (bytes_of "carol") 100)) (record some_store {
      accounts = seen (pos 1) 100 some_store.accounts;
      faults = [];
      pool = record two_connections { in_use = true ∷ true ∷ [] };
    })
unfolding bytes_eq to_hex hash_password
handle_login_admits_example =
    handle_login_admits some_library (bytes_of "carol") (bytes_of "secret1") some_store carol
      asks_login 1 (record two_connections { in_use = true ∷ true ∷ [] }) [] (erin ∷ []) refl refl
      (unfold get_connection in refl) refl refl tt refl refl

pub some_pool-IsValid : IsValid two_connections
unfolding any_row nat_eq
some_pool-IsValid = record {
  parallel = refl;
  distinct = (refl, (refl, tt));
  below = (ground arith, (ground arith, tt));
}

handle_request-Charged_example :
    Charged some_store (handle_request some_library asks_login some_store)
handle_request-Charged_example =
    handle_request-Charged some_library asks_login some_store some_pool-IsValid

-- A header, a body of five bytes in three pieces, and the answer written.
abbrev pub some_events : List Event
some_events =
    received (response_header 5 ++ bytes_of "he")
    ∷ received (bytes_of "ll")
    ∷ received (bytes_of "o")
    ∷ written
    ∷ []

run_events-InBounds_example :
    InBounds (reached (run_events some_library some_events visitor)).session.phase
run_events-InBounds_example = run_events-InBounds some_library some_events visitor tt

any_split_delivers_example : Delivered some_library (bytes_of "hello") visitor (
    run_events some_library
      (map received ((response_header 5 ++ bytes_of "he") ∷ bytes_of "ll" ∷ bytes_of "o" ∷ []))
      visitor)
unfolding joined
any_split_delivers_example =
    any_split_delivers some_library (response_header 5) (bytes_of "hello") 5 (bytes_of "he")
      (bytes_of "ll" ∷ bytes_of "o" ∷ []) visitor (response_header-Declares 5 (ground arith)) refl
      refl (ground arith, (ground arith, tt)) refl

read-write_response_example :
    (header : Text) × (write_response (bytes_of "hello") visitor
      ≡ done tt (record visitor {
        session = record visitor.session { phase = writing };
        sent = (header ++ bytes_of "hello") ∷ [];
      }))
    × Delivered some_library (bytes_of "hello") visitor (
        run_events some_library
          (map received ((header ++ bytes_of "he") ∷ bytes_of "ll" ∷ bytes_of "o" ∷ []))
          visitor)
unfolding joined
read-write_response_example =
    read-write_response some_library (bytes_of "hello") (bytes_of "he")
      (bytes_of "ll" ∷ bytes_of "o" ∷ []) visitor visitor (ground arith) refl
      (ground arith, (ground arith, tt)) refl

get_top_players-IsTop_example :
    (users : List UserInfo) × (get_top_players (pos 1) some_store
      ≡ done users (record some_store {
        pool = record two_connections { in_use = true ∷ true ∷ [] };
        faults = [];
      }))
    × IsTop 1 some_store.accounts users
get_top_players-IsTop_example =
    get_top_players-IsTop 1 1 (record two_connections { in_use = true ∷ true ∷ [] }) some_store
      (unfold get_connection in refl) refl

abbrev some_calls : List Call
some_calls =
    counts (pos 1) true ∷ creates (bytes_of "dave") (bytes_of "hash") ∷ counts (pos 2) false ∷ []
