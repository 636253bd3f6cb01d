-- ===== src/Sessions/Handshake.antt =====
-- MatchingServer/src/core/session.cpp: the handler of `read_handshake`; and core/server.cpp: a run of
-- `check_inactive_sessions`.

use socket_communication.Common.{
  ℤ, if◌then◌else◌, ◌==◌, nat_eq, int_eq, bytes_eq, string_eq, ◌>>=◌, ◌>>◌, pure, catching, ran,
  threw, lookup, erase, ℕ, Bool, true, false, ◌&&◌, Option, none, some, List, [], ◌∷◌,
}
use socket_communication.Db.{Text, room_status_eq, game_status_eq}
use socket_communication.Protocol.{Request, contains, get, absent, mistyped, given}
use socket_communication.AuthService.{External}
use socket_communication.Server.{
  Session, Server, lock, modify, register_session, register_mirror_session, allow_connection,
  inactive_tokens,
}
use socket_communication.Sessions.{
  World, Handler, send, on_server, ask_server, handle_error, set_token, connected, mirror_connected,
  ip_in_use,
}
use socket_communication.Sessions.Requests.{
  Incoming, process_request, read_error, unparsable, parsed,
}

abbrev pub says_mirror : Request → Bool
says_mirror q = elim q.connection_type [ given c ↦ c == "mirror" | _ ↦ false ] && contains q.port

abbrev pub as_mirror : Session → Session
as_mirror o = record o { is_mirror = true }

abbrev pub with_port : ℤ → Session → Session
with_port port o = record o { mirror_port = port; user_id = port }

-- The branch of a mirror server.
unfoldable pub mirror_handshake : ℕ → Request → Handler
mirror_handshake s q = do
  on_server (modify s as_mirror)
  port ← get q.port
  on_server (register_mirror_session s port)
  on_server (modify s (with_port port))
  send s mirror_connected

-- `initialize`.
unfoldable pub initialize : ℕ → Handler
initialize s = do token ← ask_server (register_session s); on_server (modify s (set_token token))

-- The branch of a client from the test of its version on.
unfoldable pub admit_client : External → ℕ → ℕ → Request → Handler
unfolding initialize
admit_client x now s q w = elim q.version [
  | absent ↦ handle_error s w
  | mistyped ↦ threw w
  | given v ↦
      if w.server.version == v
      then (initialize s
            >> (if contains q.action then process_request x now s q else send s connected))
          w
      else handle_error s w
]

abbrev pub ip_of : ℕ → Server → Text
ip_of s w = elim (lock s w) [ none ↦ [] | some o ↦ o.remote_ip ]

-- The branch of a client: an address that is in use is answered and closed, and the handshake goes
-- on.
unfoldable pub client_handshake : External → ℕ → ℕ → Request → Handler
unfolding admit_client
client_handshake x now s q = do
  allowed ← ask_server (λ w. allow_connection (ip_of s w) w)
  if allowed then pure tt else (send s ip_in_use >> handle_error s)
  admit_client x now s q

-- The handler of `read_handshake`.
unfoldable pub read_handshake : External → ℕ → ℕ → Incoming → Handler
unfolding mirror_handshake client_handshake
read_handshake x now s read_error = handle_error s
read_handshake x now s unparsable = handle_error s
read_handshake x now s (parsed q) =
    catching (if says_mirror q then mirror_handshake s q else client_handshake x now s q)
      (handle_error s)

-- A session that the second loop of `check_inactive_sessions` has taken out of the registry.
abbrev pub expire_object : ℕ → Option Session → Handler
expire_object s none w = ran tt w
expire_object s (some o) w = handle_error s w

-- The second loop of `check_inactive_sessions`.
unfoldable pub expire_each : List ℕ → Handler
expire_each [] w = ran tt w
expire_each (t ∷ ts) w =
    let rest = expire_each ts in
    elim (lookup t w.server.sessions) [
      | none ↦ rest w
      | some s ↦
          let w' : World = record w {
            server = record w.server { sessions = erase t w.server.sessions };
          } in
          elim (expire_object s (lock s w.server) w') [ ran u v ↦ rest v | threw v ↦ threw v ]
    ]

-- One run of `check_inactive_sessions`, at a time.
unfoldable pub check_inactive_sessions : ℕ → Handler
unfolding expire_each
check_inactive_sessions now w = expire_each (inactive_tokens now w.server w.server.sessions) w
