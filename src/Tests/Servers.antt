-- ===== src/Tests/Servers.antt =====
-- The registries of the server and the messages of a session.

use socket_communication.Common.{
  pos, nat_eq, int_eq, bytes_eq, string_eq, count_rows, lookup, ◌≡◌, refl, ◌≢◌, true, some, [], ◌∷◌,
  arith,
}
use socket_communication.Db.{Text, room_status_eq, game_status_eq}
use socket_communication.Protocol.{Request, given}
use socket_communication.Server.{Session, zero_id, user_of, check_already_login}
use socket_communication.Server.Registry.{IsRegistry}
use socket_communication.Sessions.Requests.{process_request}
use socket_communication.Sessions.Identity.{claiming, identity_from_session}
use socket_communication.Tests.{asks, some_external, alice_session, some_server, some_world}

some_server-IsRegistry : IsRegistry some_server
unfolding count_rows
some_server-IsRegistry = record {
  fresh = (omega arith, (omega arith, tt));
  single = λ s. ground arith;
}

abbrev address : Text
address = b'7' ∷ []

abbrev joins_lounge : Request
joins_lounge = record asks { action = given "joinRoom" }

abbrev starts_in_lounge : Request
starts_in_lounge = record asks { action = given "gameStart" }

alice_logged : user_of 0 some_server ≢ zero_id
unfolding lookup nat_eq
alice_logged e = ground arith

identity_from_session_example :
    process_request some_external 100 0 (claiming (given (pos 2)) joins_lounge) some_world
    ≡ process_request some_external 100 0 joins_lounge some_world
identity_from_session_example =
    identity_from_session some_external 100 0 joins_lounge (given (pos 2)) some_world alice_logged

alice_in : check_already_login (pos 1) some_server ≡ true
unfolding check_already_login lookup int_eq
alice_in = refl

-- Object 0 after it has logged in as Bob.
abbrev bob_session : Session
bob_session = record alice_session { user_id = pos 2; token = some 2 }

bob_ne_alice : bob_session.user_id ≢ pos 1
bob_ne_alice e = cc
