-- ===== src/History.antt =====
-- Histories of requests to the room and game services, each over the faults and the link that the
-- database happens to have at the time.

pub mod Games
pub mod Listings
pub mod Invariant
use socket_communication.Common.{Action, final, Bool, List, [], ◌∷◌}
use socket_communication.Db.{Db}
use socket_communication.DbPool.{Link}
use socket_communication.Protocol.{Request, Response}
use socket_communication.RoomService.{create_room, join_room, exit_room, list_rooms}
use socket_communication.GameService.{start_game, end_game}

pub data Call : Type 0 where
  creates joins leaves starts ends : Request → Call
  lists : Call

unfoldable pub serve : Call → Action Db Response
serve (creates q) = create_room q
serve (joins q) = join_room q
serve (leaves q) = exit_room q
serve (starts q) = start_game q
serve (ends q) = end_game q
serve lists = list_rooms

pub record Event : Type 0 where
  pub faults : List Bool
  pub link : Link
  pub call : Call

abbrev pub during : Event → Db → Db
during e db = record db { faults = e.faults; link = e.link }

unfoldable pub run_history : List Event → Db → Db
run_history [] db = db
run_history (e ∷ es) db = run_history es (final (serve e.call (during e db)))
