-- ===== src/GameSocket/Gateway/Keeps.antt =====
-- What the sessions of GameSocketServer/src keep, the whole server keeps, whoever connects.

use socket_communication.GameSocket.Effects.{Failure, Tried, Leads, Leads-bind, done, raised}
use socket_communication.Common.{
  if◌then◌else◌, nat_eq, int_eq, bytes_eq, string_eq, lookup, ℕ, Bool, true, false, Option, none,
  some, List, [], ◌∷◌,
}
use socket_communication.Db.{room_status_eq, game_status_eq}
use socket_communication.DbPool.{Link}
use socket_communication.GameSocket.Store.{Store}
use socket_communication.GameSocket.AuthApi.{AuthRequest, Library, handle_request}
use socket_communication.GameSocket.Session.{Client, Event, on_event}
use socket_communication.GameSocket.Session.Keeps.{on_event-Held}
use socket_communication.GameSocket.Gateway.{
  Connection, Gateway, Accepted, Happening, accept_next, add_client, on_accept, client_of,
  serve_client, on_client, stop_server, happen, run_gateway, not_accepted, peer_lost, peer_there,
  accepted, at_client, signalled, database,
}

module _ (x : Library) (I : Store → Type 0)
    (keeps : (q : AuthRequest) (s : Store)
      → I s
      → Leads (λ _ s'. I s') (λ _ s'. I s') (handle_request x q s))
    (conditions : (f : List (Option Failure)) (l : Link) (s : Store)
      → I s
      → I (record s { faults = f; link = l })) where
  abbrev pub Served : Tried Gateway (Unit {0}) → Type 0
  Served = Leads (λ _ g. I g.store) (λ _ g. I g.store)

  client-Served : (i : ℕ) (e : Event) (g : Gateway) → I g.store → Served (on_client x i e g)
  unfolding on_client
  client-Served i e g s = go (lookup i g.connections)
    where
      put :
          (r : Tried Client (Unit {0}))
          → Leads (λ _ c. I c.store) (λ _ c. I c.store) r
          → Served (serve_client i g r)
      put (done u c) h = h
      put (raised f c) h = h

      go :
          (o : Option Connection)
          → Served (elim o as (λ _. Tried Gateway (Unit {0})) [
            | none ↦ done tt g
            | some k ↦ serve_client i g (on_event x e k.session.phase (client_of k g.store))
          ])
      go none = s
      go (some k) =
          put (on_event x e k.session.phase (client_of k g.store))
            (on_event-Held x I keeps e k.session.phase (client_of k g.store) s)

  accept-Served : (a : Accepted) (g : Gateway) → I g.store → Served (on_accept a g)
  unfolding on_accept
  accept-Served not_accepted g s = again g.running
    where
      again : (b : Bool) → I (if b then accept_next g else g).store
      again true = s
      again false = s
  accept-Served peer_lost g s = s
  accept-Served peer_there g s = again g.running
    where
      again : (b : Bool) → I (if b then accept_next (add_client g) else add_client g).store
      again true = s
      again false = s

  happen-Served : (h : Happening) (g : Gateway) → I g.store → Served (happen x h g)
  unfolding happen stop_server
  happen-Served (accepted a) g s = go g.is_accepting
    where
      go :
          (b : Bool)
          → Served (if b then on_accept a (record g { is_accepting = false }) else done tt g)
      go true = accept-Served a (record g { is_accepting = false }) s
      go false = s
  happen-Served (at_client i e) g s = client-Served i e g s
  happen-Served signalled g s = s
  happen-Served (database f l) g s = conditions f l g.store s

  pub run_gateway-Served :
      (hs : List Happening) (g : Gateway) → I g.store → Served (run_gateway x hs g)
  unfolding run_gateway
  run_gateway-Served [] g s = s
  run_gateway-Served (h ∷ hs) g s =
      Leads-bind (λ _ g. I g.store) (λ _ g. I g.store) (λ _ g. I g.store) (happen x h)
        (λ _. run_gateway x hs) g (happen-Served h g s) (λ u g' k. run_gateway-Served hs g' k)
