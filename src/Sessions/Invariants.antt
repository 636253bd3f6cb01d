-- ===== src/Sessions/Invariants.antt =====
-- What a property of the database needs for the sessions and timers of MatchingServer/src/core to keep
-- it, and what then keeps it: the controllers are the only way of a session to the database.

pub mod Handlers
use socket_communication.Common.{
  lt_int, if◌then◌else◌, Ran, Action, ◌>>=◌, catching, Ends, Ends-bind, Ends-catching, ran, threw,
  ℕ, Bool, true, false, List,
}
use socket_communication.Db.{Db}
use socket_communication.DbPool.{Link}
use socket_communication.Protocol.{Field, Request, Response, get, absent, mistyped, given}
use socket_communication.AuthService.{External}
use socket_communication.Controllers.{handle_auth, handle_room, handle_game}
use socket_communication.Server.{zero_id, user_of, modify}
use socket_communication.Sessions.{
  Message, World, send, on_server, on_db, exit_request, close_socket, handle_error,
}

-- A handler on the database that keeps a property, however it ends.
abbrev pub Keeping {ℓ} : (Db → Type 0) → {A : Type ℓ} → Action Db A → Type 0
Keeping P m = (db : Db) → P db → Ends (λ _ db'. P db') P (m db)

-- A property of the database that the controllers keep, whatever fails.
pub record DbInvariant : Type 1 where
  pub holds : Db → Type 0
  pub on_auth : (x : External) (q : Request) → Keeping holds (handle_auth x q)
  pub on_room : (q : Request) → Keeping holds (handle_room q)
  pub on_game : (q : Request) → Keeping holds (handle_game q)
  pub on_conditions :
      (faults : List Bool) (l : Link) (db : Db)
      → holds db
      → holds (record db { faults = faults; link = l })

module _ (I : DbInvariant) where
  abbrev pub Sound : World → Type 0
  Sound w = I.holds w.db

  -- A handler of a session that keeps it.
  abbrev pub Kept {ℓ} : {A : Type ℓ} → Ran World A → Type 0
  Kept = Ends (λ _ w. Sound w) Sound

  abbrev pub Safe {ℓ} : {A : Type ℓ} → Action World A → Type 0
  Safe m = (w : World) → Sound w → Kept (m w)

  pub bind-Safe {ℓ} :
      {A B : Type ℓ} (m : Action World A) (f : A → Action World B)
      → Safe m
      → ((a : A) → Safe (f a))
      → Safe (m >>= f)
  bind-Safe m f h k w s =
      Ends-bind (λ _ w. Sound w) Sound (λ _ w. Sound w) m f w (h w s) (λ a v i. k a v i)

  pub if-Safe {ℓ} :
      {A : Type ℓ} (b : Bool) (m n : Action World A) → Safe m → Safe n → Safe (if b then m else n)
  if-Safe true m n h k = h
  if-Safe false m n h k = k

  pub get-Safe {ℓ} :
      {A B : Type ℓ} (f : Field A) (k : A → Action World B)
      → ((a : A) → Safe (k a))
      → Safe (get f >>= k)
  get-Safe absent k h w s = s
  get-Safe mistyped k h w s = s
  get-Safe (given a) k h w s = h a w s

  pub catching-Safe {ℓ} :
      {A : Type ℓ} (m n : Action World A) → Safe m → Safe n → Safe (catching m n)
  catching-Safe m n h k w s =
      Ends-catching (λ _ w. Sound w) Sound Sound m n w (h w s) (λ v i. k v i)

  pub on_db-Safe {ℓ} : {A : Type ℓ} (m : Action Db A) → Keeping I.holds m → Safe (on_db m)
  on_db-Safe {A} m h w s = go (m w.db) (h w.db s)
    where
      go :
          (r : Ran Db A)
          → Ends (λ _ db. I.holds db) I.holds r
          → Kept (elim r as (λ _. Ran World A) [
            | ran a db ↦ ran a (record w { db = db })
            | threw db ↦ threw (record w { db = db })
          ])
      go (ran a db) c = c
      go (threw db) c = c

  pub send-Safe : (s : ℕ) (m : Message) → Safe (send s m)
  unfolding send
  send-Safe s m w c = c

  pub handle_error-Safe : (s : ℕ) → Safe (handle_error s)
  unfolding handle_error
  handle_error-Safe s w c = go (lt_int zero_id (user_of s w.server))
    where
      leaving :
          (r : Ran Db Response)
          → Ends (λ _ db. I.holds db) I.holds r
          → Kept
              (elim (elim (elim r as (λ _. Ran World Response) [
                | ran a db ↦ ran a (record w { db = db })
                | threw db ↦ threw (record w { db = db })
              ])
                  as (λ _. Ran World (Unit {0})) [ ran a w' ↦ ran tt w' | threw w' ↦ ran tt w' ])
                as (λ _. Ran World (Unit {0})) [
                  | ran u w' ↦ on_server (modify s close_socket) w'
                  | threw w' ↦ on_server (modify s close_socket) w'
                ])
      leaving (ran a db) k = k
      leaving (threw db) k = k

      go :
          (b : Bool)
          → Kept
              (elim (if b
                  then elim (on_db (handle_room (exit_request (user_of s w.server))) w)
                      as (λ _. Ran World (Unit {0})) [ ran a w' ↦ ran tt w' | threw w' ↦ ran tt w' ]
                  else ran tt w)
                as (λ _. Ran World (Unit {0})) [
                  | ran u w' ↦ on_server (modify s close_socket) w'
                  | threw w' ↦ on_server (modify s close_socket) w'
                ])
      go true = leaving _ (I.on_room (exit_request (user_of s w.server)) w.db c)
      go false = c
