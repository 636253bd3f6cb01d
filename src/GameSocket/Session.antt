-- ===== src/GameSocket/Session.antt =====
-- GameSocketServer/src/session.cpp: one HTTP connection. The I/O library calls a handler for each
-- event; the phase says which one it waits for. An exception that leaves a handler leaves
-- `io_context::run` and ends the server.

pub mod Framing
pub mod RoundTrip
pub mod Lengths
pub mod Bounds
pub mod Splits
pub mod Keeps
pub mod Accounts
use socket_communication.GameSocket.Effects.{
  Tried, Task, ◌>>=◌, ◌>>◌, give, fail, other_error, undefined_behaviour, done, raised,
}
use socket_communication.GameSocket.Store.{Store}
use socket_communication.GameSocket.AuthApi.{
  AuthRequest, Answer, Library, handle_request, unknown_action, invalid_format, refused, registered,
  logged_in,
}
use socket_communication.Common.{
  ℤ, if◌then◌else◌, leb, ◌==◌, nat_eq, int_eq, bytes_eq, string_eq, length, bytes_of, drop, take,
  substr, find, to_string, stoul, ℕ, ◌+◌, ◌-◌, String, not, ◌||◌, Option, none, some, List, [], ◌∷◌,
  ◌++◌,
}
use socket_communication.Db.{Text, room_status_eq, game_status_eq}
use socket_communication.Protocol.{Field, absent, mistyped, given}

pub data Phase : Type 0 where
  reading_header writing ended : Phase
  reading_body : ℕ → Phase

pub record Session : Type 0 where
  pub user_id : ℤ
  pub auth_token : Text
  pub message : Text
  pub phase : Phase

-- A session, the database, and what was written to the socket, the latest last.
pub record Client : Type 0 where
  pub session : Session
  pub store : Store
  pub sent : List Text

abbrev pub Handler : Type 0
Handler = Task Client (Unit {0})

abbrev pub crlf : Text
crlf = 13 ∷ 10 ∷ []

abbrev pub blank_line : Text
blank_line = 13 ∷ 10 ∷ 13 ∷ 10 ∷ []

abbrev pub length_key : Text
length_key = bytes_of "Content-Length: "

abbrev pub set_phase : Phase → Client → Client
set_phase p c = record c { session = record c.session { phase = p } }

-- The header that `write_response` puts before a body.
unfoldable pub response_header : ℕ → Text
response_header n =
    bytes_of "HTTP/1.1 200 OK"
    ++ (crlf
        ++ (bytes_of "Content-Type: application/json"
            ++ (crlf
                ++ (length_key
                    ++ (to_string n
                        ++ (crlf ++ (bytes_of "Connection: keep-alive" ++ (crlf ++ crlf))))))))

unfoldable pub write_response : Text → Handler
write_response r c =
    done tt
      (set_phase writing (record c { sent = c.sent ++ (response_header (length r) ++ r) ∷ [] }))

-- `json["action"]` on a request that is not const: a missing key becomes null, which is no text.
abbrev pub action_of : Field String → Task Client String
action_of absent = fail other_error
action_of mistyped = fail other_error
action_of (given a) = give a

-- A call of the handler of `auth`, which the server's constructor registers.
abbrev pub on_store {ℓ} : {A : Type ℓ} → Task Store A → Task Client A
on_store m c = elim (m c.store) [
  | done a s ↦ done a (record c { store = s })
  | raised e s ↦ raised e (record c { store = s })
]

-- What a login's answer, read again from its text, does to the session.
abbrev pub log_in : Answer → Session → Session
log_in (refused r) o = o
log_in (registered id name) o = record o { user_id = id }
log_in (logged_in w) o = record o { user_id = w.user_id; auth_token = w.token }

abbrev pub note_login : Option Answer → Handler
note_login none c = raised other_error c
note_login (some a) c = done tt (record c { session = log_in a c.session })

-- The `try` block of `process_request`.
unfoldable pub process_checked : Library → Option AuthRequest → Handler
unfolding write_response
process_checked x none = fail other_error
process_checked x (some q) = do
  action ← action_of q.action
  if not (action == "register" || action == "login")
      then write_response (x.dump (refused unknown_action))
      else do
        answer ← on_store (handle_request x q)
        if action == "login" then note_login (x.parse_answer (x.dump answer)) else give tt
        write_response (x.dump answer)

abbrev pub or_invalid : Library → Tried Client (Unit {0}) → Tried Client (Unit {0})
or_invalid x (done u c) = done u c
or_invalid x (raised undefined_behaviour c) = raised undefined_behaviour c
or_invalid x (raised _ c) = write_response (x.dump (refused invalid_format)) c

unfoldable pub process_request : Library → Text → Handler
unfolding process_checked write_response
process_request x body c = or_invalid x (process_checked x (x.parse body) c)

-- The number between the key at `at` and the end of its line.
unfoldable pub length_in_line : Text → ℕ → Option ℕ → Option ℕ
length_in_line header at none = some 0
length_in_line header at (some line_end) =
    let from = at + length length_key in stoul (substr from (line_end - from) header)

unfoldable pub length_after : Text → Option ℕ → Option ℕ
unfolding length_in_line
length_after header none = some 0
length_after header (some at) = length_in_line header at (find crlf at header)

-- The number that the header declares, 0 where it declares none, `none` where `stoul` throws.
unfoldable pub content_length : Text → Option ℕ
unfolding length_after
content_length header = length_after header (find length_key 0 header)

-- The handler of `read_header` from the end of the header on.
unfoldable pub split_body : Library → ℕ → Text → Option ℕ → Handler
unfolding process_request
split_body x n received none c = done tt (set_phase ended c)
split_body x n received (some at) c =
    let part = drop (at + 4) received in
    if leb n (length part)
    then process_request x (take n part) c
    else done tt (record c {
      session = record c.session { message = part; phase = reading_body (n - length part) };
    })

unfoldable pub with_length : Library → Text → Option ℕ → Handler
unfolding split_body
with_length x received none c = raised other_error c
with_length x received (some n) c = split_body x n received (find blank_line 0 received) c

-- The handler of `read_header`. What `stoul` throws leaves it.
unfoldable pub header_received : Library → Text → Handler
unfolding content_length with_length
header_received x received c = with_length x received (content_length received) c

-- The handler of `read_body`.
unfoldable pub body_received : Library → ℕ → Text → Handler
unfolding process_request
body_received x remaining received c =
    let c' : Client = record c {
      session = record c.session { message = c.session.message ++ received };
    } in
    if leb remaining (length received)
    then process_request x c'.session.message c'
    else done tt (set_phase (reading_body (remaining - length received)) c')

-- What the I/O library reports: bytes that were read, a write that is done, an error.
pub data Event : Type 0 where
  received : Text → Event
  written io_error : Event

-- An event that the phase does not wait for does not happen.
unfoldable pub on_event : Library → Event → Phase → Handler
unfolding header_received body_received
on_event x (received t) reading_header c = header_received x t c
on_event x (received t) (reading_body n) c = body_received x n t c
on_event x (received t) writing c = done tt c
on_event x (received t) ended c = done tt c
on_event x written writing c = done tt (set_phase reading_header c)
on_event x written reading_header c = done tt c
on_event x written (reading_body n) c = done tt c
on_event x written ended c = done tt c
on_event x io_error p c = done tt (set_phase ended c)

unfoldable pub run_events : Library → List Event → Handler
unfolding on_event
run_events x [] = give tt
run_events x (e ∷ es) = let rest = run_events x es in (λ c. on_event x e c.session.phase c) >> rest
