-- ===== src/History/Games.antt =====
-- A game that starts or ends, and the capacity of rooms.

use socket_communication.Common.{ℤ, All, All-update_rows, refl, sym, subst, List}
use socket_communication.Db.{Room, Member, Tables, game_in_progress}
use socket_communication.RoomRepository.Ids.{DistinctIds, DistinctIds-update_rows}
use socket_communication.RoomRepository.Capacity.{IsConsistent, IsWithin}
use socket_communication.GameRepository.Games.{Start, End}

started-IsWithin :
    (ms : List Member) (r : Room)
    → IsWithin ms r
    → IsWithin ms (record r { status = game_in_progress })
started-IsWithin ms r w = (w.0, λ h. cc)

pub Start-IsConsistent : (t t' : Tables) → Start t t' → IsConsistent t → IsConsistent t'
Start-IsConsistent t t' s c = record {
  distinct =
      subst DistinctIds (sym s.rooms_after)
        (DistinctIds-update_rows _ _ t.rooms (λ r. refl) c.distinct);
  within =
      subst (λ ms. All (IsWithin ms) t'.rooms) (sym s.members_after)
        (subst (All (IsWithin t.room_users)) (sym s.rooms_after) (
          All-update_rows _ _ _ _ t.rooms (λ r h w. started-IsWithin t.room_users r w) (λ r h w. w)
            c.within));
}

pub End-IsConsistent : (game : ℤ) (t t' : Tables) → End game t t' → IsConsistent t → IsConsistent t'
End-IsConsistent game t t' e c = rw e.after (record { distinct = c.distinct; within = c.within })
