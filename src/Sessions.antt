-- ===== src/Sessions.antt =====
-- MatchingServer/src/core/session.cpp: what a session does with a message, over the server's
-- registries and the database. A handler that the I/O library would call is a step; what a session
-- writes is logged in `sent`, the latest last.

pub mod Requests
pub mod Guards
pub mod Handshake
pub mod Identity
pub mod Broadcasts
pub mod Lifecycle
pub mod Expiry
pub mod Quiet
pub mod Addresses
pub mod Consistency
pub mod Invariants
pub mod System
use socket_communication.Common.{
  ℤ, lt_int, minus_one, if◌then◌else◌, Ran, Action, ◌>>=◌, ◌>>◌, throw, ran, threw, ℕ, Bool, true,
  false, Option, none, some, List, [], ◌∷◌, ◌++◌,
}
use socket_communication.Db.{Text, Db}
use socket_communication.Protocol.{
  Request, Refusal, Profile, Opened, Response, absent, given, already_logged_in, no_mirror, refused,
  logged_in, nick_name_changed, room_created, room_joined, room_left, game_started, game_ended,
}
use socket_communication.Server.{
  Status, Session, Server, zero_id, lock, user_of, modify, register_session, get_mirror_session,
  check_already_login, set_session_status, waiting_lobby, in_room,
}
use socket_communication.Controllers.{handle_room}

pub data Message : Type 0 where
  response : Response → Message
  with_token : Response → ℕ → Message
  pong : Option ℕ → Message
  room_capacity : ℕ → Message
  ccu : ℕ → Message
  set_room : Opened → Message
  ccu_list : List (Text × Status) → Message
  new_login : Text → Message
  chat : Text → Text → Message
  connected mirror_connected ip_in_use : Message

pub record World : Type 0 where
  pub server : Server
  pub db : Db
  pub sent : List (ℕ × Message)

abbrev pub Handler : Type 0
Handler = Action World (Unit {0})

unfoldable pub send : ℕ → Message → Handler
send s m w = ran tt (record w { sent = w.sent ++ (s, m) ∷ [] })

abbrev pub refuse : ℕ → Refusal → Handler
refuse s r = send s (response (refused r))

-- A method of the server, and one that answers.
abbrev pub on_server : (Server → Server) → Handler
on_server f w = ran tt (record w { server = f w.server })

abbrev pub ask_server {ℓ} : {A : Type ℓ} → (Server → Server × A) → Action World A
ask_server f w = let (server, a) = f w.server in ran a (record w { server = server })

-- A call of a controller.
abbrev pub on_db {ℓ} : {A : Type ℓ} → Action Db A → Action World A
on_db m w = elim (m w.db) [
  | ran a db ↦ ran a (record w { db = db })
  | threw db ↦ threw (record w { db = db })
]

abbrev pub empty_request : Request
empty_request = record {
  action = absent;
  user_id = absent;
  user_name = absent;
  password = absent;
  nick_name = absent;
  room_id = absent;
  room_name = absent;
  max_players = absent;
  map_id = absent;
  game_id = absent;
  connection_type = absent;
  port = absent;
  version = absent;
}

abbrev pub exit_request : ℤ → Request
exit_request user = record empty_request { action = given "exitRoom"; user_id = given user }

abbrev pub close_socket : Session → Session
close_socket o = record o { is_live = false }

-- `handle_error`: a logged-in user leaves its room, and the socket is closed. The room service
-- catches its own exceptions.
unfoldable pub handle_error : ℕ → Handler
handle_error s w =
    let user = user_of s w.server in
    let left : Ran World (Unit {0}) =
      if lt_int zero_id user
      then elim (on_db (handle_room (exit_request user)) w) [
        | ran a w' ↦ ran tt w'
        | threw w' ↦ ran tt w'
      ]
      else ran tt w in
    elim left [
      | ran u w' ↦ on_server (modify s close_socket) w'
      | threw w' ↦ on_server (modify s close_socket) w'
    ]

-- `handlePing`, at a time.
unfoldable pub handle_ping : ℕ → ℕ → Handler
handle_ping now s = do
  on_server (modify s (λ o. record o { last_activity = now }))
  token ← ask_server (λ w. (w, elim (lock s w) [ none ↦ none | some o ↦ o.token ]))
  send s (pong token)

abbrev pub log_in_as : Profile → Session → Session
log_in_as p o = record o {
  user_id = p.user_id;
  user_name = p.user_name;
  nick_name = p.nick_name;
  status = waiting_lobby;
}

abbrev pub no_user : Session → Session
no_user o = record o { user_id = minus_one }

-- `init_current_user`. Where the second look-up of `registerCheckAndLogin` found no user, `userId` is
-- -1 and `userName` is there and null: its conversion to a text throws.
unfoldable pub init_current_user : ℕ → Option Profile → Handler
init_current_user s none = do on_server (modify s no_user); throw
init_current_user s (some p) = on_server (modify s (log_in_as p))

abbrev pub profile_id : Option Profile → ℤ
profile_id none = minus_one
profile_id (some p) = p.user_id

abbrev pub set_token : ℕ → Session → Session
set_token t o = record o { token = some t }

-- The branch of a login that succeeded.
unfoldable pub after_login : ℕ → Option Profile → Handler
unfolding init_current_user
after_login s p = do
  already ← ask_server (λ w. (w, check_already_login (profile_id p) w))
  if already then refuse s already_logged_in else do
    init_current_user s p
    token ← ask_server (register_session s)
    on_server (modify s (set_token token))
    send s (with_token (logged_in p) token)

abbrev pub enter_status : Status → Session → Session
enter_status st o = record o { status = st }

-- The branch of a room that was created.
unfoldable pub after_creation : ℕ → Opened → Handler
after_creation s r = do
  mirror ← ask_server (get_mirror_session r.port)
  elim mirror [
    | none ↦ refuse s no_mirror
    | some m ↦ do
      on_server (modify s (enter_status (in_room r.room_id)))
      send m (set_room r)
      send s (response (room_created r))
  ]

-- `setSessionStatus` and the answer to a game action.
unfoldable pub after_game : ℕ → List ℤ → Bool → Response → Handler
after_game s users flag a w = elim (set_session_status users flag w.server) [
  | none ↦ threw w
  | some server ↦ send s (response a) (record w { server = server })
]

-- What `process_request` does with the controller's response.
unfoldable pub after_response : ℕ → Response → Handler
unfolding after_login after_creation after_game
after_response s (logged_in p) = after_login s p
after_response s (room_created r) = after_creation s r
after_response s (room_joined r) = do
  on_server (modify s (enter_status (in_room r)))
  send s (response (room_joined r))
after_response s room_left = do
  on_server (modify s (enter_status waiting_lobby))
  send s (response room_left)
after_response s (game_started g us) = after_game s us true (game_started g us)
after_response s (game_ended r us) = after_game s us false (game_ended r us)
after_response s (nick_name_changed n) = do
  on_server (modify s (λ o. record o { nick_name = n }))
  send s (response (nick_name_changed n))
after_response s a = send s (response a)
