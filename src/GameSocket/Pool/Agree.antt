-- ===== src/GameSocket/Pool/Agree.antt =====
-- The pool of GameSocketServer/src/db/db_pool.cpp does what that of
-- MatchingServer/src/util/db_pool.cpp does.

use socket_communication.Common.{
  if◌then◌else◌, Bool-cases, length, ran, threw, ℕ, suc, ◌+◌, ◌≡◌, refl, ap, ◌∙◌, inl, inr, [],
  arith,
}
use socket_communication.DbPool.{Link, DbPool, get_connection, return_connection, fill, new_pool}
use socket_communication.GameSocket.Pool
use socket_communication.GameSocket.Pool.Same.{
  get_from-scan, return_from-release, open_connections-fill,
}

constructed :
    (l : Link) (size : ℕ)
    → Pool.construct l (suc size)
      ≡ (if l.connects then ran tt (new_pool (suc size)) else threw Pool.empty_pool)
unfolding Pool.construct Pool.open_connections new_pool
constructed l size = elim (Bool-cases l.connects) [
  | inl can ↦
      let size_of : 0 + suc size ≡ suc size = omega arith in
      open_connections-fill l (suc size) 0 [] [] can
      ∙ ap
          (λ n. ran tt (record {
            connections = (fill (suc size) 0).0;
            in_use = (fill (suc size) 0).1;
            next_conn = n;
          }))
          size_of
      ∙ rw can refl
  | inr cannot ↦ rw cannot refl
]

-- Over vectors of one length, the loops over indices of the game socket server's pool lend and take
-- back what the matching server's pool does, with the same pool afterwards, also where no connection
-- can be made. Its constructor, for one connection or more, makes the matching server's new pool where
-- connecting works, and throws where it does not.
pub pool_agrees :
    (l : Link) (p : DbPool) (c size : ℕ)
    → length p.connections ≡ length p.in_use
    → (Pool.get_connection l p ≡ get_connection l p)
      × (Pool.return_connection c p ≡ return_connection c p)
      × (Pool.construct l (suc size)
          ≡ (if l.connects then ran tt (new_pool (suc size)) else threw Pool.empty_pool))
unfolding Pool.get_connection Pool.return_connection get_connection return_connection
pool_agrees l p c size e = (
  get_from-scan l p.connections p.in_use p.next_conn e,
  return_from-release c p.connections p.in_use p.next_conn e,
  constructed l size,
)
