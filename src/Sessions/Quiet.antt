-- ===== src/Sessions/Quiet.antt =====
-- `handle_error` of MatchingServer/src/core/session.cpp: the registries are as they were.

use socket_communication.Common.{
  lt_int, if◌then◌else◌, nat_eq, int_eq, bytes_eq, string_eq, Ran, ran, threw, insert, ℕ, ◌≡◌, refl,
  ◌∙◌, Bool, true, false, Option, none, some,
}
use socket_communication.Db.{room_status_eq, game_status_eq, Db}
use socket_communication.Protocol.{Response}
use socket_communication.Server.{Session, Server, zero_id, lock, user_of, modify}
use socket_communication.Controllers.{handle_room}
use socket_communication.Sessions.{
  World, on_server, on_db, exit_request, close_socket, handle_error,
}

-- The registries but for the sessions: what an expiry leaves.
pub record SameRegistries (w w' : Server) : Type 0 where
  pub tokens_kept : w'.tokens ≡ w.tokens
  pub mirrors_kept : w'.mirrors ≡ w.mirrors
  pub addresses_kept : w'.connected_ips ≡ w.connected_ips
  pub version_kept : w'.version ≡ w.version
  pub draws_kept : w'.next_token ≡ w.next_token

pub SameRegistries-refl : (w : Server) → SameRegistries w w
SameRegistries-refl w = record {
  tokens_kept = refl;
  mirrors_kept = refl;
  addresses_kept = refl;
  version_kept = refl;
  draws_kept = refl;
}

pub SameRegistries-trans :
    (u v w : Server) → SameRegistries u v → SameRegistries v w → SameRegistries u w
SameRegistries-trans u v w a b = record {
  tokens_kept = b.tokens_kept ∙ a.tokens_kept;
  mirrors_kept = b.mirrors_kept ∙ a.mirrors_kept;
  addresses_kept = b.addresses_kept ∙ a.addresses_kept;
  version_kept = b.version_kept ∙ a.version_kept;
  draws_kept = b.draws_kept ∙ a.draws_kept;
}

-- A change of an object leaves all registries.
pub modify-keeps :
    (s : ℕ) (f : Session → Session) (w : Server)
    → SameRegistries w (modify s f w) × ((modify s f w).sessions ≡ w.sessions)
unfolding modify
modify-keeps s f w = go (lock s w)
  where
    go :
        (o : Option Session)
        → (SameRegistries w (elim o as (λ _. Server) [
          | none ↦ w
          | some o ↦ record w { objects = insert s (f o) w.objects }
        ]))
          × ((elim o as (λ _. Server) [
            | none ↦ w
            | some o ↦ record w { objects = insert s (f o) w.objects }
          ]).sessions
              ≡ w.sessions)
    go none = (SameRegistries-refl w, refl)
    go (some o) = (
      record {
        tokens_kept = refl;
        mirrors_kept = refl;
        addresses_kept = refl;
        version_kept = refl;
        draws_kept = refl;
      },
      refl,
    )

-- A handler that returns, over registries that it leaves.
abbrev pub Quiet : World → Ran World (Unit {0}) → Type 0
Quiet w r =
    (w' : World) × (r ≡ ran tt w')
    × SameRegistries w.server w'.server
    × (w'.server.sessions ≡ w.server.sessions)

-- `handle_error` never throws, and leaves all registries: the destructor is what changes them.
pub handle_error-Quiet : (s : ℕ) (w : World) → Quiet w (handle_error s w)
unfolding handle_error
handle_error-Quiet s w = go (lt_int zero_id (user_of s w.server))
  where
    closes : World → World
    closes v = record v { server = modify s close_socket v.server }

    kept :
        SameRegistries w.server (modify s close_socket w.server)
        × ((modify s close_socket w.server).sessions ≡ w.server.sessions)
    kept = modify-keeps s close_socket w.server

    leaving :
        (r : Ran Db Response)
        → Quiet w
            (elim (elim (elim r as (λ _. Ran World Response) [
              | ran a db ↦ ran a (record w { db = db })
              | threw db ↦ threw (record w { db = db })
            ])
                as (λ _. Ran World (Unit {0})) [ ran a w' ↦ ran tt w' | threw w' ↦ ran tt w' ])
              as (λ _. Ran World (Unit {0})) [
                | ran u w' ↦ on_server (modify s close_socket) w'
                | threw w' ↦ on_server (modify s close_socket) w'
              ])
    leaving (ran a db) = (closes (record w { db = db }), refl, kept.0, kept.1)
    leaving (threw db) = (closes (record w { db = db }), refl, kept.0, kept.1)

    go :
        (b : Bool)
        → Quiet w
            (elim (if b
                then elim (on_db (handle_room (exit_request (user_of s w.server))) w)
                    as (λ _. Ran World (Unit {0})) [ ran a w' ↦ ran tt w' | threw w' ↦ ran tt w' ]
                else ran tt w)
              as (λ _. Ran World (Unit {0})) [
                | ran u w' ↦ on_server (modify s close_socket) w'
                | threw w' ↦ on_server (modify s close_socket) w'
              ])
    go true = leaving (handle_room (exit_request (user_of s w.server)) w.db)
    go false = (closes w, refl, kept.0, kept.1)
