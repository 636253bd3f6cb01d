-- ===== src/ChatServer.antt =====
-- boost_Chat_Server/Server.cpp: a chat over TCP, a line for each message. A Service is one connection
-- and is known by a number, which its Client's socket has too. What arrives, the completion of a read
-- and an error are events; the mutex makes each handler one step. What is written is logged.

pub mod Names
pub mod Departed
pub mod Client
use socket_communication.Common.{
  if◌then◌else◌, ◌==◌, nat_eq, int_eq, bytes_eq, string_eq, is_empty, lookup, has_key, insert,
  bytes_of, ℕ, suc, Bool, true, false, Option, none, some, List, [], ◌∷◌, ◌++◌, map,
}
use socket_communication.Db.{Text, room_status_eq, game_status_eq}

-- The source's texts, in the encoding of its file.
abbrev pub has_joined : Text
has_joined =
    180 ∷ 212 ∷ 192 ∷ 204 ∷ 32 ∷ 192 ∷ 212 ∷ 192 ∷ 229 ∷ 199 ∷ 207 ∷ 188 ∷ 204 ∷ 189 ∷ 192 ∷ 180
    ∷ 207 ∷ 180 ∷ 217 ∷ 46 ∷ []

abbrev pub name_taken : Text
name_taken =
    199 ∷ 216 ∷ 180 ∷ 231 ∷ 32 ∷ 180 ∷ 208 ∷ 179 ∷ 215 ∷ 192 ∷ 211 ∷ 192 ∷ 204 ∷ 32 ∷ 192 ∷ 204
    ∷ 185 ∷ 204 ∷ 32 ∷ 187 ∷ 231 ∷ 191 ∷ 235 ∷ 193 ∷ 223 ∷ 192 ∷ 212 ∷ 180 ∷ 207 ∷ 180 ∷ 217 ∷ 44
    ∷ 32 ∷ 180 ∷ 217 ∷ 189 ∷ 195 ∷ 32 ∷ 189 ∷ 195 ∷ 181 ∷ 181 ∷ 199 ∷ 216 ∷ 32 ∷ 193 ∷ 214 ∷ 188
    ∷ 188 ∷ 191 ∷ 228 ∷ 10 ∷ []

-- The fields of a Service; `is_reading` is whether a read is pending, `is_open` whether its socket is.
pub record Service : Type 0 where
  pub request : Text
  pub nickname : Text
  pub is_reading : Bool
  pub is_open : Bool

-- The services, the map `clients` from nicknames to sockets, what was written, and the next number.
pub record Chat : Type 0 where
  pub services : List (ℕ × Service)
  pub clients : List (Text × ℕ)
  pub sent : List (ℕ × Text)
  pub next_service : ℕ

abbrev pub new_chat : Chat
new_chat = record { services = []; clients = []; sent = []; next_service = 0 }

abbrev pub put : ℕ → Service → Chat → Chat
put s o c = record c { services = insert s o c.services }

-- `std::getline`, where there is a whole line: the line and what is left.
unfoldable pub take_line : Text → Option (Text × Text)
take_line [] = none
take_line (b ∷ t) =
    let later = take_line t in
    if b == b'\n' then some ([], t) else elim later [ none ↦ none | some p ↦ some (b ∷ p.0, p.1) ]

unfoldable pub broadcast_message : Text → Chat → Chat
broadcast_message message c = record c {
  sent = c.sent ++ map (λ p. (p.1, message ++ (b'\n' ∷ []))) c.clients;
}

-- `registerClient`.
unfoldable pub register_client : ℕ → Service → Chat → Chat × Bool
register_client s o c =
    if has_key o.nickname c.clients
    then (
      record (put s (record o { is_open = false }) c) { sent = c.sent ++ (s, name_taken) ∷ [] },
      false,
    )
    else (record c { clients = insert o.nickname s c.clients }, true)

-- `onRequestReceived` from the answer of `registerClient` on.
unfoldable pub after_registering : ℕ → Service → Chat × Bool → Chat
unfolding broadcast_message
after_registering s o (c, false) = c
after_registering s o (c, true) =
    broadcast_message (o.nickname ++ has_joined) (put s (record o { is_reading = true }) c)

-- `onRequestReceived` without an error, from the line that was read on.
unfoldable pub on_line : ℕ → Service → Text → Chat → Chat
unfolding broadcast_message register_client after_registering
on_line s o message c =
    if is_empty o.nickname
    then (let named : Service = record o { nickname = message } in
        after_registering s named (register_client s named (put s named c)))
    else broadcast_message (o.nickname ++ (bytes_of ": " ++ message))
        (put s (record o { is_reading = true }) c)

pub data Event : Type 0 where
  accepts : Event
  arrives : ℕ → Text → Event
  ready fails : ℕ → Event

-- What an event does to a service that reads; a read is ready when a whole line has arrived.
unfoldable pub on_service : Event → ℕ → Service → Chat → Chat
unfolding take_line on_line
on_service accepts s o c = c
on_service (arrives i t) s o c = put s (record o { request = o.request ++ t }) c
on_service (ready i) s o c = elim (take_line o.request) [
  | none ↦ c
  | some p ↦ on_line s (record o { request = p.1; is_reading = false }) p.0 c
]
on_service (fails i) s o c = put s (record o { is_reading = false }) c

abbrev pub on_reader : Event → ℕ → Option Service → Chat → Chat
on_reader e s none c = c
on_reader e s (some o) c = if o.is_reading then on_service e s o c else c

-- The constructor of Service and `StartHandling`, in the handler of `doAccept`.
abbrev pub new_service : Service
new_service = record { request = []; nickname = []; is_reading = true; is_open = true }

unfoldable pub on_event : Event → Chat → Chat
unfolding on_service
on_event accepts c = record (put c.next_service new_service c) { next_service = suc c.next_service }
on_event (arrives s t) c = on_reader (arrives s t) s (lookup s c.services) c
on_event (ready s) c = on_reader (ready s) s (lookup s c.services) c
on_event (fails s) c = on_reader (fails s) s (lookup s c.services) c

unfoldable pub run_chat : List Event → Chat → Chat
unfolding on_event
run_chat [] c = c
run_chat (e ∷ es) c = run_chat es (on_event e c)
