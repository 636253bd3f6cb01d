-- ===== src/RoomService.antt =====
-- MatchingServer/src/service/room_service.cpp: the room names that are accepted, and the methods of
-- RoomServiceImpl. An exception of the repository or of a conversion is caught and answered.

pub mod Names
pub mod Rooms
pub mod Seats
use Prim.Native.Nat.{bit_and}
use socket_communication.Common.{
  ℤ, lt_int, pos, if◌then◌else◌, ltb, leb, ◌==◌, nat_eq, int_eq, bytes_eq, string_eq, length,
  is_empty, Action, ◌>>=◌, ◌>>◌, pure, catching, ℕ, Bool, true, false, not, ◌&&◌, ◌||◌, Option,
  none, some, List, [], ◌∷◌,
}
use socket_communication.Db.{Room, Text, room_status_eq, game_status_eq, Db}
use socket_communication.Protocol.{
  Field, Request, Response, contains, get, absent, mistyped, given, fields_missing, exception_met,
  invalid_room_name, invalid_max_players, room_not_created, room_not_joined, not_in_a_room, refused,
  room_created, room_joined, room_left, rooms_listed,
}
use socket_communication.RoomRepository.{
  find_all_open, create_room_with_host, add_player, remove_player, get_player_count,
}

-- The tests on one byte of a name: ASCII letters and digits, the space, the lead byte of a
-- three-byte character, a continuation byte.
unfoldable pub is_name_byte : ℕ → Bool
is_name_byte c =
    (leb b'A' c && leb c b'Z')
    || (leb b'a' c && leb c b'z')
    || (leb b'0' c && leb c b'9')
    || c == b' '
    || bit_and c 0xF0 == 0xE0
    || bit_and c 0xC0 == 0x80

-- The loop over the bytes; a `$` passes as the last one.
unfoldable pub check_bytes : Text → Bool
check_bytes [] = true
check_bytes (c ∷ []) = c == b'$' || is_name_byte c
check_bytes (c ∷ d ∷ cs) = let rest = check_bytes (d ∷ cs) in is_name_byte c && rest

unfoldable pub is_valid_room_name : Text → Bool
is_valid_room_name name =
    if is_empty name then false else if ltb 40 (length name) then false else check_bytes name

-- `maxPlayers < 2 || maxPlayers > 8` on the JSON value: a value of another type orders before or
-- after every number, so one of the two tests holds.
abbrev pub is_out_of_range : Field ℤ → Bool
is_out_of_range absent = true
is_out_of_range mistyped = true
is_out_of_range (given n) = lt_int n (pos 2) || lt_int (pos 8) n

abbrev pub created : Option Room → Response
created none = refused room_not_created
created (some r) = room_created (record {
  room_id = r.room_id;
  room_name = r.room_name;
  max_players = r.max_players;
  ip_address = r.ip_address;
  port = r.port;
})

-- The `try` block of `createRoom`.
unfoldable pub create_room_checked : Field Text → Field ℤ → Field ℤ → Action Db Response
unfolding is_valid_room_name
create_room_checked name_field user_field max_field =
    if not (contains name_field) || not (contains user_field) || not (contains max_field)
    then pure (refused fields_missing)
    else do
      name ← get name_field
      if not (is_valid_room_name name)
          then pure (refused invalid_room_name)
          else if is_out_of_range max_field
          then pure (refused invalid_max_players)
          else do
            user ← get user_field
            max_players ← get max_field
            row ← create_room_with_host user name max_players
            pure (created row)

unfoldable pub create_room : Request → Action Db Response
unfolding create_room_checked
create_room q =
    catching (create_room_checked q.room_name q.user_id q.max_players)
      (pure (refused exception_met))

unfoldable pub join_room_checked : Field ℤ → Field ℤ → Action Db Response
join_room_checked room_field user_field =
    if not (contains room_field) || not (contains user_field)
    then pure (refused fields_missing)
    else do
      room ← get room_field
      user ← get user_field
      added ← add_player room user
      pure (if added then room_joined room else refused room_not_joined)

unfoldable pub join_room : Request → Action Db Response
unfolding join_room_checked
join_room q = catching (join_room_checked q.room_id q.user_id) (pure (refused exception_met))

unfoldable pub exit_room_checked : Field ℤ → Action Db Response
exit_room_checked user_field =
    if not (contains user_field) then pure (refused fields_missing) else do
      user ← get user_field
      removed ← remove_player user
      pure (if removed then room_left else refused not_in_a_room)

unfoldable pub exit_room : Request → Action Db Response
unfolding exit_room_checked
exit_room q = catching (exit_room_checked q.user_id) (pure (refused exception_met))

-- The loop of `listRooms` over the open rooms.
unfoldable pub count_each : List Room → Action Db (List (Room × ℤ))
count_each [] = pure []
count_each (r ∷ rs) = do n ← get_player_count r.room_id; rest ← count_each rs; pure ((r, n) ∷ rest)

unfoldable pub list_rooms_counted : Action Db Response
unfolding count_each
list_rooms_counted = do
  rooms ← find_all_open
  counted ← count_each rooms
  pure (rooms_listed counted)

unfoldable pub list_rooms : Action Db Response
unfolding list_rooms_counted
list_rooms = catching list_rooms_counted (pure (refused exception_met))
