-- ===== src/Tests.antt =====
-- A small server and database, on which the other modules of the tests run the code.

mod Pool
mod Rooms
mod Games
mod Accounts
mod Servers
mod Gateway
mod Crowd
mod Process
mod Chatting
mod Tasks
mod Workers
mod Wires
mod Owners
use socket_communication.Common.{pos, true, false, none, some, [], ◌∷◌}
use socket_communication.Db.{User, Room, Member, Game, Tables, waiting, terminated, in_progress, Db}
use socket_communication.DbPool.{Link, DbPool}
use socket_communication.Protocol.{Request, absent, given}
use socket_communication.Server.{Session, Server, unset, waiting_lobby}
use socket_communication.Sessions.{World}
use socket_communication.AuthService.{External}

abbrev pub alice : User
alice = record {
  user_id = pos 1;
  user_name = b'a' ∷ b'@' ∷ b'b' ∷ [];
  nick_name = b'a' ∷ [];
  password_hash = b'0' ∷ b'7' ∷ [];
  created_at = 1;
  last_login = 2;
}

abbrev pub bob : User
bob = record alice { user_id = pos 2; user_name = b'b' ∷ b'@' ∷ b'b' ∷ []; nick_name = b'b' ∷ [] }

-- Room 1 waits for players.
abbrev pub lounge : Room
lounge = record {
  room_id = pos 1;
  room_name = b'L' ∷ [];
  host_id = pos 1;
  ip_address = b'1' ∷ [];
  port = pos 4001;
  max_players = pos 2;
  status = waiting;
  created_at = 5;
}

-- Rooms 2 and 3 are free.
abbrev pub attic : Room
attic = record lounge { room_id = pos 2; status = terminated; created_at = 7 }

abbrev pub cellar : Room
cellar = record lounge { room_id = pos 3; status = terminated; created_at = 6 }

abbrev pub alice_there : Member
alice_there = record { room = pos 1; user = pos 1; joined_at = 5 }

abbrev pub played : Game
played = record {
  game_id = pos 1;
  room = pos 1;
  map_id = pos 1;
  status = in_progress;
  started_at = 3;
  completed_at = none;
}

abbrev pub some_tables : Tables
some_tables = record {
  users = alice ∷ bob ∷ [];
  maps = pos 1 ∷ [];
  rooms = cellar ∷ lounge ∷ attic ∷ [];
  room_users = alice_there ∷ [];
  games = played ∷ [];
  next_user = 3;
  next_game = 2;
  lower = λ t. t;
}

abbrev pub up : Link
up = record { is_open = λ c. true; connects = true; now = 100 }

abbrev pub two_connections : DbPool
two_connections = record { connections = 0 ∷ 1 ∷ []; in_use = true ∷ false ∷ []; next_conn = 2 }

abbrev pub some_db : Db
some_db = record { committed = some_tables; faults = []; pool = two_connections; link = up }

-- The second statement fails.
abbrev pub faulty_db : Db
faulty_db = record some_db { faults = false ∷ true ∷ [] }

abbrev pub asks : Request
asks = record {
  action = absent;
  user_id = given (pos 2);
  user_name = absent;
  password = absent;
  nick_name = absent;
  room_id = given (pos 1);
  room_name = given (b'A' ∷ b'1' ∷ b'$' ∷ []);
  max_players = given (pos 4);
  map_id = given (pos 1);
  game_id = given (pos 1);
  connection_type = absent;
  port = absent;
  version = absent;
}

-- A hash function and a test of nick names that serve as examples.
abbrev pub some_external : External
some_external = record { sha256 = λ t. 7 ∷ []; nick_matches = λ t. true; default_nick = b'u' ∷ [] }

-- Alice's session is object 0, under token 0.
abbrev pub alice_session : Session
alice_session = record {
  user_id = pos 1;
  user_name = alice.user_name;
  nick_name = alice.nick_name;
  status = waiting_lobby;
  last_activity = 90;
  token = some 0;
  is_mirror = false;
  mirror_port = pos 0;
  remote_ip = b'9' ∷ [];
  is_live = true;
}

-- Object 1 has not logged in.
abbrev pub new_session : Session
new_session = record alice_session {
  user_id = pos 0;
  token = some 1;
  status = unset;
  remote_ip = b'8' ∷ [];
}

abbrev pub some_server : Server
some_server = record {
  objects = (0, alice_session) ∷ (1, new_session) ∷ [];
  sessions = (0, 0) ∷ (1, 1) ∷ [];
  tokens = (pos 1, 0) ∷ [];
  mirrors = [];
  connected_ips = (b'8' ∷ []) ∷ (b'9' ∷ []) ∷ [];
  next_token = 2;
  session_timeout = 30;
  version = "1";
}

abbrev pub some_world : World
some_world = record { server = some_server; db = some_db; sent = [] }
