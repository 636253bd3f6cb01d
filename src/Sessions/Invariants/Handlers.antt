-- ===== src/Sessions/Invariants/Handlers.antt =====
-- Each handler of MatchingServer/src/core/session.cpp keeps what the controllers keep.

use socket_communication.Common.{
  ℤ, if◌then◌else◌, ◌==◌, nat_eq, int_eq, bytes_eq, string_eq, Ran, Action, ◌>>=◌, ◌>>◌, pure,
  threw, ℕ, String, Bool, true, false, not, ◌||◌, Option, none, some, List,
}
use socket_communication.Db.{room_status_eq, game_status_eq, Db}
use socket_communication.Protocol.{
  Field, Request, Profile, Opened, Response, contains, absent, mistyped, given, unknown_action,
  already_logged_in, no_mirror, refused, registered, logged_in, nick_name_changed, room_created,
  room_joined, room_left, rooms_listed, game_started, game_ended,
}
use socket_communication.AuthService.{External}
use socket_communication.Server.{
  Server, zero_id, user_of, modify, register_session, get_mirror_session, check_already_login,
  allow_connection, set_session_status, in_room,
}
use socket_communication.Sessions.{
  World, Handler, send, refuse, on_server, ask_server, on_db, handle_error, handle_ping,
  init_current_user, profile_id, set_token, after_login, enter_status, after_creation, after_game,
  after_response, response, with_token, set_room, connected, ip_in_use,
}
use socket_communication.Sessions.Requests.{
  Incoming, stamped, is_auth_action, is_room_action, is_game_action, auth_request, room_request,
  is_mirror_object, game_request, route, process_request, read_message, read_error, unparsable,
  parsed,
}
use socket_communication.Sessions.Handshake.{
  says_mirror, as_mirror, mirror_handshake, initialize, admit_client, ip_of, client_handshake,
  read_handshake,
}
use socket_communication.Sessions.Invariants.{
  DbInvariant, Keeping, Kept, Safe, bind-Safe, if-Safe, get-Safe, catching-Safe, on_db-Safe,
  send-Safe, handle_error-Safe,
}

module _ (I : DbInvariant) where
  handle_ping-Safe : (now s : ℕ) → Safe I (handle_ping now s)
  unfolding handle_ping send
  handle_ping-Safe now s w c = c

  after_login-Safe : (s : ℕ) (p : Option Profile) → Safe I (after_login s p)
  unfolding after_login init_current_user send
  after_login-Safe s p w c = go (check_already_login (profile_id p) w.server)
    where
      admit : Option Profile → Handler
      admit o = do
        init_current_user s o
        token ← ask_server (register_session s)
        on_server (modify s (set_token token))
        send s (with_token (logged_in o) token)

      admitted : (o : Option Profile) → Kept I (admit o w)
      admitted none = c
      admitted (some r) = c

      go : (b : Bool) → Kept I ((if b then refuse s already_logged_in else admit p) w)
      go true = c
      go false = admitted p

  after_creation-Safe : (s : ℕ) (r : Opened) → Safe I (after_creation s r)
  unfolding after_creation send
  after_creation-Safe s r w c = go (get_mirror_session r.port w.server)
    where
      go :
          (v : Server × Option ℕ)
          → Kept I (
              (elim v.1 as (λ _. Handler) [
                | none ↦ refuse s no_mirror
                | some m ↦ do
                  on_server (modify s (enter_status (in_room r.room_id)))
                  send m (set_room r)
                  send s (response (room_created r))
              ])
                (record w { server = v.0 }))
      go (v, none) = c
      go (v, some m) = c

  after_game-Safe :
      (s : ℕ) (users : List ℤ) (flag : Bool) (a : Response) → Safe I (after_game s users flag a)
  unfolding after_game send
  after_game-Safe s users flag a w c = go (set_session_status users flag w.server)
    where
      go :
          (o : Option Server)
          → Kept I (elim o as (λ _. Ran World (Unit {0})) [
            | none ↦ threw w
            | some server ↦ send s (response a) (record w { server = server })
          ])
      go none = c
      go (some v) = c

  after_response-Safe : (s : ℕ) (a : Response) → Safe I (after_response s a)
  unfolding after_response send
  after_response-Safe s (refused r) = λ w c. c
  after_response-Safe s (registered u n) = λ w c. c
  after_response-Safe s (logged_in p) = after_login-Safe s p
  after_response-Safe s (nick_name_changed n) = λ w c. c
  after_response-Safe s (room_created r) = after_creation-Safe s r
  after_response-Safe s (room_joined r) = λ w c. c
  after_response-Safe s room_left = λ w c. c
  after_response-Safe s (rooms_listed rs) = λ w c. c
  after_response-Safe s (game_started g us) = after_game-Safe s us true (game_started g us)
  after_response-Safe s (game_ended r us) = after_game-Safe s us false (game_ended r us)

  -- A controller, and what its answer makes the session do.
  served-Safe :
      (s : ℕ) (m : Action Db Response) → Keeping I.holds m → Safe I (on_db m >>= after_response s)
  served-Safe s m h =
      bind-Safe I (on_db m) (after_response s) (on_db-Safe I m h) (after_response-Safe s)

  auth_request-Safe : (x : External) (s : ℕ) (q : Request) → Safe I (auth_request x s q)
  unfolding auth_request
  auth_request-Safe x s q w = served-Safe s _ (I.on_auth x _) w

  -- A test whose branches are run where it stands.
  either-Kept {ℓ} :
      {A : Type ℓ} (b : Bool) (r r' : Ran World A)
      → Kept I r
      → Kept I r'
      → Kept I (if b then r else r')
  either-Kept true r r' h k = h
  either-Kept false r r' h k = k

  room_request-Safe : (s : ℕ) (q : Request) → Safe I (room_request s q)
  unfolding room_request
  room_request-Safe s q w c =
      either-Kept (user_of s w.server == zero_id) _ _ (send-Safe I s _ w c)
        (served-Safe s _ (I.on_room (stamped (user_of s w.server) q)) w c)

  game_request-Safe : (s : ℕ) (q : Request) → Safe I (game_request s q)
  unfolding game_request
  game_request-Safe s q w c =
      either-Kept (user_of s w.server == zero_id || not (is_mirror_object s w.server)) _ _
        (send-Safe I s _ w c) (served-Safe s _ (I.on_game (stamped (user_of s w.server) q)) w c)

  route-Safe : (x : External) (now s : ℕ) (q : Request) (a : String) → Safe I (route x now s q a)
  unfolding route send
  route-Safe x now s q a = if-Safe I (is_auth_action a) _ _ (auth_request-Safe x s q) (
      if-Safe I (is_room_action a) _ _ (room_request-Safe s q) (
        if-Safe I (is_game_action a) _ _ (game_request-Safe s q) (
          if-Safe I (a == "alivePing") _ _ (handle_ping-Safe now s) (
            if-Safe I (a == "logout") _ _ (handle_error-Safe I s) (
              if-Safe I (a == "roomCapacity") _ _ (λ w c. c)
                (if-Safe I (a == "CCU") _ _ (λ w c. c)
                  (send-Safe I s (response (refused unknown_action)))))))))

  process_request-Safe :
      (x : External) (now s : ℕ) (q : Request) → Safe I (process_request x now s q)
  unfolding process_request
  process_request-Safe x now s q =
      get-Safe I q.action _ (λ a. catching-Safe I _ _ (route-Safe x now s q a) (send-Safe I s _))

  pub read_message-Safe :
      (x : External) (now s : ℕ) (i : Incoming) → Safe I (read_message x now s i)
  unfolding read_message
  read_message-Safe x now s read_error = handle_error-Safe I s
  read_message-Safe x now s unparsable = send-Safe I s _
  read_message-Safe x now s (parsed q) =
      catching-Safe I _ _ (process_request-Safe x now s q) (send-Safe I s _)

  mirror_handshake-Safe : (s : ℕ) (q : Request) → Safe I (mirror_handshake s q)
  unfolding mirror_handshake send
  mirror_handshake-Safe s q w =
      get-Safe I q.port _ (λ p w c. c) (record w { server = modify s as_mirror w.server })

  admit_client-Safe : (x : External) (now s : ℕ) (q : Request) → Safe I (admit_client x now s q)
  unfolding admit_client initialize
  admit_client-Safe x now s q w c = go q.version
    where
      next : Safe I (if contains q.action then process_request x now s q else send s connected)
      next =
          if-Safe I (contains q.action) _ _ (process_request-Safe x now s q)
            (send-Safe I s connected)

      go :
          (f : Field String)
          → Kept I (elim f as (λ _. Ran World (Unit {0})) [
            | absent ↦ handle_error s w
            | mistyped ↦ threw w
            | given v ↦
                if w.server.version == v
                then (initialize s
                      >> (if contains q.action
                          then process_request x now s q
                          else send s connected))
                    w
                else handle_error s w
          ])
      go absent = handle_error-Safe I s w c
      go mistyped = c
      go (given v) = either-Kept (w.server.version == v) _ _ (next _ c) (handle_error-Safe I s w c)

  client_handshake-Safe :
      (x : External) (now s : ℕ) (q : Request) → Safe I (client_handshake x now s q)
  unfolding client_handshake
  client_handshake-Safe x now s q =
      bind-Safe I (ask_server (λ w. allow_connection (ip_of s w) w)) _ (λ w c. c)
        (λ allowed.
          bind-Safe I (if allowed then pure tt else (send s ip_in_use >> handle_error s)) _
            (if-Safe I allowed _ _ (λ w c. c)
              (bind-Safe I (send s ip_in_use) _ (send-Safe I s ip_in_use)
                (λ _. handle_error-Safe I s)))
            (λ _. admit_client-Safe x now s q))

  pub read_handshake-Safe :
      (x : External) (now s : ℕ) (i : Incoming) → Safe I (read_handshake x now s i)
  unfolding read_handshake
  read_handshake-Safe x now s read_error = handle_error-Safe I s
  read_handshake-Safe x now s unparsable = handle_error-Safe I s
  read_handshake-Safe x now s (parsed q) =
      catching-Safe I _ _
        (if-Safe I (says_mirror q) _ _ (mirror_handshake-Safe s q)
          (client_handshake-Safe x now s q))
        (handle_error-Safe I s)
