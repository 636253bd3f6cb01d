-- ===== src/Tests/Rooms.antt =====
-- The rooms of the repository and of the service.

use socket_communication.Common.{
  pos, int_eq, length, where_rows, delete_rows, update_rows, first_row, count_rows, any_row, final,
  returned, Ends, ◌≤◌, ◌≡◌, refl, ◌↔◌, inr, true, none, some, List, [], ◌∷◌, arith,
}
use socket_communication.Db.{
  Room, Text, has_user, has_room, players, is_member, insert_member, room_status_eq, waiting, Db,
  query, execute, run_work,
}
use socket_communication.Db.Healthy.{IsHealthy, Answers}
use socket_communication.Db.Atomicity.{Atomic}
use socket_communication.DbPool.{get_connection}
use socket_communication.Protocol.{given}
use socket_communication.RoomRepository.{
  find_all_open, lowest, reopened, create_room_with_host, add_player, remove_player,
}
use socket_communication.RoomRepository.Creation.{Creation, IsNone, create_room_with_host-Creation}
use socket_communication.RoomRepository.Joining.{
  Admits, entered, IsRefused, IsJoin, add_player-IsJoin, add_player_admitted,
}
use socket_communication.RoomRepository.Leaving.{
  Departure, without, closed, IsDeparture, remove_player-IsDeparture,
}
use socket_communication.RoomRepository.Listing.{IsListing, find_all_open-IsListing}
use socket_communication.RoomRepository.Capacity.{IsConsistent}
use socket_communication.RoomRepository.SecondRoom.{add_player_twice}
use socket_communication.RoomService.{is_valid_room_name, create_room, join_room, exit_room}
use socket_communication.RoomService.Names.{NameBytes, is_valid_room_name_iff}
use socket_communication.RoomService.Rooms.{Never, Makes, create_room-Makes}
use socket_communication.RoomService.Seats.{Enters, join_room-Enters, Leaves, exit_room-Leaves}
use socket_communication.History.{Event, creates, leaves, starts}
use socket_communication.Tests.{
  lounge, attic, cellar, alice_there, some_tables, up, two_connections, some_db, faulty_db, asks,
}

-- The free room of the lowest id is opened, though another comes first in the table.

-- The free room of the lowest id is opened, though another comes first in the table.
opened_attic :
    returned (create_room_with_host (pos 2) (b'N' ∷ []) (pos 4) some_db)
    ≡ some (some (reopened (pos 2) (b'N' ∷ []) (pos 4) 100 attic))
unfolding create_room_with_host run_work get_connection query execute any_row int_eq lowest
    where_rows room_status_eq first_row has_user insert_member is_member has_room update_rows
opened_attic = refl

-- A host who is in a room already gets none.
no_second_room : returned (create_room_with_host (pos 1) (b'N' ∷ []) (pos 4) some_db) ≡ some none
unfolding create_room_with_host run_work get_connection query execute any_row int_eq
no_second_room = refl

pub some_db-IsHealthy : IsHealthy some_db
unfolding get_connection
some_db-IsHealthy = record {
  no_faults = refl;
  conn = 1;
  rest = record two_connections { in_use = true ∷ true ∷ [] };
  lends = refl;
}

pub some_tables-IsConsistent : IsConsistent some_tables
unfolding any_row players count_rows int_eq
some_tables-IsConsistent = record {
  distinct = (refl, (refl, (refl, tt)));
  within = ((refl, λ h. refl), ((refl, λ h. cc), ((refl, λ h. refl), tt)));
}

bob_admitted : Admits (pos 1) (pos 2) some_tables
unfolding first_row is_member any_row players count_rows has_user int_eq
bob_admitted = record {
  slot = lounge;
  found = refl;
  waits = refl;
  absent = refl;
  has_space = refl;
  known = refl;
}

create_room_with_host-Creation_example :
    Atomic IsNone
      (Creation (pos 2) (b'N' ∷ []) (pos 4) some_tables)
      some_tables
      (create_room_with_host (pos 2) (b'N' ∷ []) (pos 4) faulty_db)
create_room_with_host-Creation_example =
    create_room_with_host-Creation (pos 2) (b'N' ∷ []) (pos 4) faulty_db

lowest-attic : lowest (cellar ∷ attic ∷ []) ≡ some attic
unfolding lowest
lowest-attic = refl

add_player-IsJoin_example :
    Atomic IsRefused
      (IsJoin (pos 1) (pos 2) some_tables)
      some_tables
      (add_player (pos 1) (pos 2) faulty_db)
add_player-IsJoin_example = add_player-IsJoin (pos 1) (pos 2) faulty_db

add_player_admitted_example :
    Answers true (entered (pos 1) (pos 2) 100 some_tables) (add_player (pos 1) (pos 2) some_db)
add_player_admitted_example =
    add_player_admitted (pos 1) (pos 2) some_db some_db-IsHealthy bob_admitted

-- The attic waits for players too.
abbrev open_attic : Room
open_attic = record attic { status = waiting }

abbrev two_open : Db
two_open = record some_db { committed = record some_tables { rooms = lounge ∷ open_attic ∷ [] } }

two_open-IsHealthy : IsHealthy two_open
unfolding get_connection
two_open-IsHealthy = record {
  no_faults = refl;
  conn = 1;
  rest = record two_connections { in_use = true ∷ true ∷ [] };
  lends = refl;
}

alice_admitted : Admits (pos 2) (pos 1) two_open.committed
unfolding first_row is_member any_row players count_rows has_user int_eq
alice_admitted = record {
  slot = open_attic;
  found = refl;
  waits = refl;
  absent = refl;
  has_space = refl;
  known = refl;
}

alice_in_lounge : is_member (pos 1) (pos 1) some_tables.room_users ≡ true
unfolding is_member any_row int_eq
alice_in_lounge = refl

add_player_twice_example :
    (returned (add_player (pos 2) (pos 1) two_open) ≡ some true)
    × (is_member (pos 2) (pos 1) (final (add_player (pos 2) (pos 1) two_open)).committed.room_users
        ≡ true)
    × (is_member (pos 1) (pos 1) (final (add_player (pos 2) (pos 1) two_open)).committed.room_users
        ≡ true)
add_player_twice_example =
    add_player_twice (pos 2) (pos 1) (pos 1) two_open two_open-IsHealthy alice_admitted
      alice_in_lounge

remove_player-IsDeparture_example :
    Atomic IsRefused (IsDeparture (pos 1) some_tables) some_tables (remove_player (pos 1) faulty_db)
remove_player-IsDeparture_example = remove_player-IsDeparture (pos 1) faulty_db

alice_leaves : Departure (pos 1) some_tables (closed (pos 1) 100 (without (pos 1) some_tables))
unfolding first_row players count_rows delete_rows int_eq
alice_leaves = record { row = alice_there; found = refl; now = 100; after = inr (refl, refl) }

create_room-Makes_example : Ends (Makes asks some_tables) Never (create_room asks some_db)
create_room-Makes_example = create_room-Makes asks some_db

join_room-Enters_example : Ends (Enters asks some_tables) Never (join_room asks some_db)
join_room-Enters_example = join_room-Enters asks some_db

exit_room-Leaves_example : Ends (Leaves asks some_tables) Never (exit_room asks some_db)
exit_room-Leaves_example = exit_room-Leaves asks some_db

abbrev a_name : Text
a_name = b'A' ∷ b'1' ∷ b'$' ∷ []

is_valid_room_name_iff_example :
    (is_valid_room_name a_name ≡ true)
    ↔ ((1 ≤ length a_name) × (length a_name ≤ 40) × NameBytes a_name)
is_valid_room_name_iff_example =
    is_valid_room_name_iff a_name (omega arith, (omega arith, (omega arith, tt)))

-- Alice leaves, Bob opens a room, a game starts in it; at the second event a statement fails.
abbrev an_evening : List Event
an_evening =
    record { faults = []; link = up; call = leaves (record asks { user_id = given (pos 1) }) }
    ∷ record { faults = true ∷ []; link = up; call = creates asks }
    ∷ record { faults = []; link = up; call = creates asks }
    ∷ record { faults = []; link = up; call = starts asks }
    ∷ []

find_all_open-IsListing_example :
    Atomic (λ rows. rows ≡ []) (IsListing some_tables) some_tables (find_all_open some_db)
find_all_open-IsListing_example = find_all_open-IsListing some_db
