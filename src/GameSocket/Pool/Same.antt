-- ===== src/GameSocket/Pool/Same.antt =====
-- The pools of GameSocketServer/src/db/db_pool.cpp and MatchingServer/src/util/db_pool.cpp agree.

use mathlib.Core.List.{append-nil, append_assoc}
use socket_communication.Common.{
  if◌then◌else◌, ◌==◌, nat_eq, int_eq, bytes_eq, string_eq, length, Ran, ran, threw, ℕ, zero, suc,
  ◌+◌, ◌≡◌, refl, sym, ap, ◌∙◌, Bool, true, false, Option, none, some, List, [], ◌∷◌, ◌++◌, arith,
}
use socket_communication.Db.{room_status_eq, game_status_eq}
use socket_communication.DbPool.{
  Link, DbPool, Search, keep_slot, scan, grow, take_found, release, fill, found, failed, none_free,
}
use socket_communication.GameSocket.Pool.{
  at, set_at, open_connections, mark, use_slot, add_connection, get_from, return_from,
}

abbrev with_slot : ℕ → Bool → DbPool → DbPool
with_slot c u p = record p { connections = c ∷ p.connections; in_use = u ∷ p.in_use }

abbrev prefixed {ℓ} : {A : Type ℓ} → ℕ → Bool → Ran DbPool A → Ran DbPool A
prefixed c u (ran a p) = ran a (with_slot c u p)
prefixed c u (threw p) = threw (with_slot c u p)

use_slot-shift :
    (l : Link) (c : ℕ) (u : Bool) (i d : ℕ) (p : DbPool)
    → use_slot l (suc i) d (with_slot c u p) ≡ prefixed c u (use_slot l i d p)
unfolding use_slot set_at
use_slot-shift l c u i d p = ground arith

add_connection-shift :
    (l : Link) (c : ℕ) (u : Bool) (p : DbPool)
    → add_connection l (with_slot c u p) ≡ prefixed c u (add_connection l p)
unfolding add_connection
add_connection-shift l c u p = ground arith

-- A search from the next index on is one in the vectors without their first element.
get_from-shift :
    (l : Link) (c : ℕ) (u : Bool) (left i : ℕ) (p : DbPool)
    → get_from l left (suc i) (with_slot c u p) ≡ prefixed c u (get_from l left i p)
unfolding get_from at
get_from-shift l c u zero i p = add_connection-shift l c u p
get_from-shift l c u (suc left) i p =
    go (get_from-shift l c u left (suc i) p) (at i p.in_use) (at i p.connections)
  where
    go :
        (get_from l left (suc (suc i)) (with_slot c u p) ≡ prefixed c u (get_from l left (suc i) p))
        → (ou : Option Bool) (oc : Option ℕ)
        → (elim ou as (λ _. Ran DbPool ℕ) [
          | none ↦ get_from l left (suc (suc i)) (with_slot c u p)
          | some v ↦
              if v
              then get_from l left (suc (suc i)) (with_slot c u p)
              else elim oc as (λ _. Ran DbPool ℕ) [
                | none ↦ get_from l left (suc (suc i)) (with_slot c u p)
                | some d ↦ use_slot l (suc i) d (with_slot c u p)
              ]
        ])
          ≡ prefixed c u (elim ou as (λ _. Ran DbPool ℕ) [
            | none ↦ get_from l left (suc i) p
            | some v ↦ if v then get_from l left (suc i) p else elim oc as (λ _. Ran DbPool ℕ) [
              | none ↦ get_from l left (suc i) p
              | some d ↦ use_slot l i d p
            ]
          ])
    go later none oc = later
    go later (some true) oc = later
    go later (some false) none = later
    go later (some false) (some d) = use_slot-shift l c u i d p

take_found-shift :
    (l : Link) (c : ℕ) (u : Bool) (p : DbPool) (s : Search)
    → take_found l (with_slot c u p) (keep_slot c u s) ≡ prefixed c u (take_found l p s)
unfolding take_found grow
take_found-shift l c u p (found d cs us n) = refl
take_found-shift l c u p failed = refl
take_found-shift l c u p none_free = ground arith

pub get_from-scan :
    (l : Link) (cs : List ℕ) (us : List Bool) (n : ℕ)
    → length cs ≡ length us
    → get_from l (length cs) 0 (record { connections = cs; in_use = us; next_conn = n })
      ≡ take_found l (record { connections = cs; in_use = us; next_conn = n }) (scan l n cs us)
unfolding get_from scan take_found add_connection grow use_slot at set_at
get_from-scan l [] us n e = refl
get_from-scan l (c ∷ cs) [] n e = absurd (omega (arith, e))
get_from-scan l (c ∷ cs) (true ∷ us) n e =
    get_from-shift l c true (length cs) 0 _
    ∙ ap (prefixed c true) (get_from-scan l cs us n (omega (arith, e)))
    ∙ sym (take_found-shift l c true _ (scan l n cs us))
get_from-scan l (c ∷ cs) (false ∷ us) n e = ground arith

return_from-shift :
    (conn c : ℕ) (u : Bool) (left i : ℕ) (p : DbPool)
    → return_from conn left (suc i) (with_slot c u p) ≡ with_slot c u (return_from conn left i p)
unfolding return_from at set_at
return_from-shift conn c u zero i p = refl
return_from-shift conn c u (suc left) i p =
    go (return_from-shift conn c u left (suc i) p) (at i p.connections)
  where
    go :
        (return_from conn left (suc (suc i)) (with_slot c u p)
          ≡ with_slot c u (return_from conn left (suc i) p))
        → (oc : Option ℕ)
        → (elim oc as (λ _. DbPool) [
          | none ↦ return_from conn left (suc (suc i)) (with_slot c u p)
          | some d ↦
              if d == conn
              then mark (suc i) false (with_slot c u p)
              else return_from conn left (suc (suc i)) (with_slot c u p)
        ])
          ≡ with_slot c u (elim oc as (λ _. DbPool) [
            | none ↦ return_from conn left (suc i) p
            | some d ↦ if d == conn then mark i false p else return_from conn left (suc i) p
          ])
    go later none = later
    go later (some d) = ground (arith, later)

pub return_from-release :
    (conn : ℕ) (cs : List ℕ) (us : List Bool) (n : ℕ)
    → length cs ≡ length us
    → return_from conn (length cs) 0 (record { connections = cs; in_use = us; next_conn = n })
      ≡ record { connections = cs; in_use = release conn cs us; next_conn = n }
unfolding return_from release at set_at
return_from-release conn [] us n e = refl
return_from-release conn (c ∷ cs) [] n e = absurd (omega (arith, e))
return_from-release conn (c ∷ cs) (u ∷ us) n e = ground (
  arith,
  return_from-shift conn c u (length cs) 0
      (record { connections = cs; in_use = us; next_conn = n }),
  return_from-release conn cs us n (omega (arith, e)),
)

abbrev opened : List ℕ → List Bool → ℕ → Ran DbPool (Unit {0})
opened cs us n = ran tt (record { connections = cs; in_use = us; next_conn = n })

pool_of_equals :
    {cs cs' : List ℕ} {us us' : List Bool} {n n' : ℕ}
    → cs ≡ cs'
    → us ≡ us'
    → n ≡ n'
    → opened cs us n ≡ opened cs' us' n'
pool_of_equals e f g = cc

pub open_connections-fill :
    (l : Link) (left n : ℕ) (cs : List ℕ) (us : List Bool)
    → l.connects ≡ true
    → open_connections l left (record { connections = cs; in_use = us; next_conn = n })
      ≡ ran tt (record {
        connections = cs ++ (fill left n).0;
        in_use = us ++ (fill left n).1;
        next_conn = n + left;
      })
unfolding open_connections fill
open_connections-fill l zero n cs us h =
    pool_of_equals (sym (append-nil cs)) (sym (append-nil us)) (omega arith)
open_connections-fill l (suc left) n cs us h = rw h (
    open_connections-fill l left (suc n) (cs ++ n ∷ []) (us ++ false ∷ []) h
    ∙ pool_of_equals (append_assoc cs (n ∷ []) (fill left (suc n)).0)
        (append_assoc us (false ∷ []) (fill left (suc n)).1) (omega arith))
