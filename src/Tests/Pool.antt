-- ===== src/Tests/Pool.antt =====
-- The pool of connections.

use socket_communication.Common.{
  pos, nat_eq, any_row, ran, threw, ◌≡◌, refl, true, false, [], ◌∷◌, arith,
}
use socket_communication.Db.{Db, run_work}
use socket_communication.DbPool.{DbPool, get_connection}
use socket_communication.DbPool.Slots.{IsValid}
use socket_communication.DbPool.Leases.{Lends, get_connection-Lends}
use socket_communication.Db.Connections.{Balanced, run_work-Balanced}
use socket_communication.RoomRepository.{add_player_body}
use socket_communication.Tests.{up, two_connections, some_db, faulty_db}

-- Connection 1 is idle in this pool, and it is lent.
lent :
    get_connection up two_connections ≡ ran 1 (record two_connections { in_use = true ∷ true ∷ [] })
unfolding get_connection
lent = refl

-- With all connections in use the pool grows; with no way to connect it throws.
abbrev all_used : DbPool
all_used = record two_connections { in_use = true ∷ true ∷ [] }

grown :
    get_connection up all_used
    ≡ ran 2
        (record { connections = 0 ∷ 1 ∷ 2 ∷ []; in_use = true ∷ true ∷ true ∷ []; next_conn = 3 })
unfolding get_connection
grown = refl

stuck : get_connection (record up { connects = false }) all_used ≡ threw all_used
unfolding get_connection
stuck = refl

pub two_connections-IsValid : IsValid two_connections
unfolding any_row nat_eq
two_connections-IsValid = record {
  parallel = refl;
  distinct = (refl, (refl, tt));
  below = (omega arith, (omega arith, tt));
}

get_connection-Lends_example : Lends two_connections (get_connection up two_connections)
get_connection-Lends_example = get_connection-Lends up two_connections two_connections-IsValid

run_work-Balanced_example :
    Balanced two_connections (run_work false (add_player_body (pos 1) (pos 2)) faulty_db)
run_work-Balanced_example =
    run_work-Balanced false (add_player_body (pos 1) (pos 2)) faulty_db two_connections-IsValid

-- BEGIN fails.
abbrev begin_fails : Db
begin_fails = record some_db { faults = true ∷ [] }
