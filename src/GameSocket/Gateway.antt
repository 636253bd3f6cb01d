-- ===== src/GameSocket/Gateway.antt =====
-- GameSocketServer/src/server.cpp and main.cpp: the server that accepts sockets and runs the handlers of
-- all sessions, one at a time, over one database.

pub mod Keeps
pub mod Holds
use socket_communication.GameSocket.Effects.{
  Failure, Tried, Task, ◌>>◌, give, other_error, done, raised,
}
use socket_communication.Common.{
  pos, if◌then◌else◌, nat_eq, int_eq, bytes_eq, string_eq, ran, threw, lookup, insert, ℕ, suc, Bool,
  true, false, Option, none, some, List, [], ◌∷◌,
}
use socket_communication.Db.{Text, room_status_eq, game_status_eq}
use socket_communication.DbPool.{Link}
use socket_communication.GameSocket.Store.{Store}
use socket_communication.GameSocket.AuthApi.{Library}
use socket_communication.GameSocket.Session.{Session, Client, Event, on_event, reading_header}
use socket_communication.GameSocket.Pool.{construct}

-- What a connection has besides the database, which all share.
pub record Connection : Type 0 where
  pub session : Session
  pub sent : List Text

-- A server: its connections by the number of their sockets, the database, `running_`, whether its
-- acceptor is open, whether an accept is pending, and the number of the next socket.
pub record Gateway : Type 0 where
  pub connections : List (ℕ × Connection)
  pub store : Store
  pub running : Bool
  pub is_open : Bool
  pub is_accepting : Bool
  pub next_socket : ℕ

abbrev pub Turned : Type 0
Turned = Task Gateway (Unit {0})

-- The constructor of Session; `start` reads the header.
abbrev pub new_connection : Connection
new_connection = record {
  session = record { user_id = pos 0; auth_token = []; message = []; phase = reading_header };
  sent = [];
}

-- The constructor of Server, over a database with its rows: a pool of 5 connections. No server is there
-- where it throws.
unfoldable pub open_gateway : Store → Link → Option Gateway
open_gateway s l = elim (construct l 5) [
  | threw p ↦ none
  | ran u p ↦ some (record {
    connections = [];
    store = record s { pool = p; link = l };
    running = false;
    is_open = true;
    is_accepting = false;
    next_socket = 0;
  })
]

-- `do_accept`, and `run`.
abbrev pub accept_next : Gateway → Gateway
accept_next g = record g { is_accepting = true }

unfoldable pub run_server : Gateway → Gateway
run_server g = accept_next (record g { running = true })

-- What an accept gives: an error, or a socket whose peer is gone by then or there.
pub data Accepted : Type 0 where
  not_accepted peer_lost peer_there : Accepted

abbrev pub accept_on : Gateway → Gateway
accept_on g = if g.running then accept_next g else g

abbrev pub add_client : Gateway → Gateway
add_client g = record g {
  connections = (g.next_socket, new_connection) ∷ g.connections;
  next_socket = suc g.next_socket;
}

-- The handler of `do_accept`: `remote_endpoint()` in the constructor of Session throws where the peer
-- is gone.
unfoldable pub on_accept : Accepted → Turned
on_accept not_accepted g = done tt (accept_on g)
on_accept peer_lost g = raised other_error g
on_accept peer_there g = done tt (accept_on (add_client g))

-- A handler of a session, whose `shared_from_this` keeps it alive.
abbrev pub client_of : Connection → Store → Client
client_of k s = record { session = k.session; store = s; sent = k.sent }

abbrev pub put_client : ℕ → Client → Gateway → Gateway
put_client i c g = record g {
  connections = insert i (record { session = c.session; sent = c.sent }) g.connections;
  store = c.store;
}

abbrev pub serve_client : ℕ → Gateway → Tried Client (Unit {0}) → Tried Gateway (Unit {0})
serve_client i g (done u c) = done tt (put_client i c g)
serve_client i g (raised e c) = raised e (put_client i c g)

unfoldable pub on_client : Library → ℕ → Event → Turned
unfolding on_event
on_client x i e g = elim (lookup i g.connections) [
  | none ↦ done tt g
  | some k ↦ serve_client i g (on_event x e k.session.phase (client_of k g.store))
]

-- `stop`.
unfoldable pub stop_server : Gateway → Gateway
stop_server g = record g { running = false; is_open = false }

-- What happens: an accept, an event of a session, the signal of main.cpp, and a change of what the
-- database does.
pub data Happening : Type 0 where
  accepted : Accepted → Happening
  at_client : ℕ → Event → Happening
  signalled : Happening
  database : List (Option Failure) → Link → Happening

-- An accept that is not waited for does not happen.
unfoldable pub happen : Library → Happening → Turned
unfolding on_accept on_client stop_server
happen x (accepted a) g =
    if g.is_accepting then on_accept a (record g { is_accepting = false }) else done tt g
happen x (at_client i e) g = on_client x i e g
happen x signalled g = done tt (stop_server g)
happen x (database f l) g = done tt (record g { store = record g.store { faults = f; link = l } })

-- `io_context.run()` of main.cpp: an exception that leaves a handler ends the server.
unfoldable pub run_gateway : Library → List Happening → Turned
unfolding happen
run_gateway x [] = give tt
run_gateway x (h ∷ hs) = happen x h >> run_gateway x hs
