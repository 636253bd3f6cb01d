-- ===== src/Sessions/Consistency.antt =====
-- Whatever a session of MatchingServer/src/core/session.cpp does, the rooms in the database stay
-- consistent.

use socket_communication.Common.{◌==◌, nat_eq, int_eq, bytes_eq, string_eq, Ran, final, ran, threw}
use socket_communication.Db.{room_status_eq, game_status_eq, Db}
use socket_communication.Protocol.{Request}
use socket_communication.UserRepository.Consistency.{Consistent, Steady, get-Steady, if-Steady}
use socket_communication.RoomRepository.Capacity.{IsConsistent}
use socket_communication.Controllers.{handle_room, handle_game}
use socket_communication.History.{Call, serve, creates, joins, leaves, starts, ends, lists}
use socket_communication.History.Invariant.{serve-IsConsistent}

final-Consistent {ℓ} : {A : Type ℓ} (r : Ran Db A) → IsConsistent (final r).committed → Consistent r
final-Consistent (ran a db) c = c
final-Consistent (threw db) c = c

served-Steady : (k : Call) → Steady (serve k)
served-Steady k db c = final-Consistent (serve k db) (serve-IsConsistent k db c)

pub handle_room-Steady : (q : Request) → Steady (handle_room q)
unfolding handle_room serve
handle_room-Steady q = get-Steady q.action _ (λ a.
    if-Steady (a == "createRoom") _ _ (served-Steady (creates q)) (
      if-Steady (a == "joinRoom") _ _ (served-Steady (joins q)) (
        if-Steady (a == "exitRoom") _ _ (served-Steady (leaves q))
          (if-Steady (a == "listRooms") _ _ (served-Steady lists) (λ db c. c)))))

pub handle_game-Steady : (q : Request) → Steady (handle_game q)
unfolding handle_game serve
handle_game-Steady q = get-Steady q.action _ (λ a.
    if-Steady (a == "gameStart") _ _ (served-Steady (starts q))
      (if-Steady (a == "gameEnd") _ _ (served-Steady (ends q)) (λ db c. c)))
