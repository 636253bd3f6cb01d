-- ===== src/ChatServer/Departed.antt =====
-- The map of boost_Chat_Server/Server.cpp, from which nothing is removed.

use socket_communication.Common.{
  if◌then◌else◌, nat_eq, int_eq, bytes_eq, string_eq, is_empty, lookup, has_key, insert, bytes_of,
  ℕ, ◌≡◌, refl, ap, ◌∙◌, Bool, true, false, Option, none, some, List, [], ◌∷◌, ◌++◌,
}
use socket_communication.Db.{Text, room_status_eq, game_status_eq}
use socket_communication.ChatServer.{
  Service, Chat, Event, name_taken, put, take_line, broadcast_message, register_client,
  after_registering, on_line, on_service, on_reader, on_event, run_chat, accepts, arrives, ready,
  fails,
}
use socket_communication.ChatServer.Names.{Extends, insert-Extends}

registered-Extends :
    (s : ℕ) (d : Service) (c : Chat)
    → Extends c.clients (after_registering s d (register_client s d c)).clients
unfolding register_client after_registering broadcast_message
registered-Extends s d c = go (has_key d.nickname c.clients) refl
  where
    go :
        (taken : Bool)
        → has_key d.nickname c.clients ≡ taken
        → Extends c.clients
            (after_registering s d (
              if taken
              then (
                record (put s (record d { is_open = false }) c) {
                  sent = c.sent ++ (s, name_taken) ∷ [];
                },
                false,
              )
              else (record c { clients = insert d.nickname s c.clients }, true))).clients
    go true e = λ name i h. h
    go false e = insert-Extends d.nickname s c.clients e

on_line-Extends :
    (s : ℕ) (o : Service) (message : Text) (c : Chat)
    → Extends c.clients (on_line s o message c).clients
unfolding on_line broadcast_message
on_line-Extends s o message c = go (is_empty o.nickname)
  where
    named : Service
    named = record o { nickname = message }

    go :
        (b : Bool)
        → Extends c.clients
            (if b
              then after_registering s named (register_client s named (put s named c))
              else broadcast_message
                  (o.nickname ++ (bytes_of ": " ++ message))
                  (put s (record o { is_reading = true }) c)).clients
    go true = registered-Extends s named (put s named c)
    go false = λ name i h. h

on_service-Extends :
    (e : Event) (s : ℕ) (o : Service) (c : Chat) → Extends c.clients (on_service e s o c).clients
unfolding on_service
on_service-Extends accepts s o c = λ name i h. h
on_service-Extends (arrives i t) s o c = λ name j h. h
on_service-Extends (fails i) s o c = λ name j h. h
on_service-Extends (ready i) s o c = go (take_line o.request)
  where
    go :
        (l : Option (Text × Text))
        → Extends c.clients
            (elim l as (λ _. Chat) [
              | none ↦ c
              | some p ↦ on_line s (record o { request = p.1; is_reading = false }) p.0 c
            ]).clients
    go none = λ name j h. h
    go (some p) = on_line-Extends s (record o { request = p.1; is_reading = false }) p.0 c

on_reader-Extends :
    (e : Event) (s : ℕ) (r : Option Service) (c : Chat)
    → Extends c.clients (on_reader e s r c).clients
on_reader-Extends e s none c = λ name j h. h
on_reader-Extends e s (some o) c = go o.is_reading
  where
    go : (b : Bool) → Extends c.clients (if b then on_service e s o c else c).clients
    go true = on_service-Extends e s o c
    go false = λ name j h. h

on_event-Extends : (e : Event) (c : Chat) → Extends c.clients (on_event e c).clients
unfolding on_event
on_event-Extends accepts c = λ name j h. h
on_event-Extends (arrives s t) c = on_reader-Extends (arrives s t) s (lookup s c.services) c
on_event-Extends (ready s) c = on_reader-Extends (ready s) s (lookup s c.services) c
on_event-Extends (fails s) c = on_reader-Extends (fails s) s (lookup s c.services) c

run_chat-Extends : (es : List Event) (c : Chat) → Extends c.clients (run_chat es c).clients
unfolding run_chat
run_chat-Extends [] c = λ name j h. h
run_chat-Extends (e ∷ es) c =
    λ name j h. run_chat-Extends es (on_event e c) name j (on_event-Extends e c name j h)

-- A nickname that the map once has is refused from then on, to every connection and whatever happens
-- in between, also when the connection that had it has failed long ago.
pub name_never_freed :
    (es : List Event) (c : Chat) (name : Text) (i s : ℕ) (o : Service)
    → lookup name c.clients ≡ some i
    → o.nickname ≡ name
    → (register_client s o (run_chat es c)).1 ≡ false
unfolding register_client
name_never_freed es c name i s o had same = ap answer (
    ap (λ n. has_key n d.clients) same
    ∙ ap (λ r. elim r as (λ _. Bool) [ none ↦ false | some v ↦ true ])
        (run_chat-Extends es c name i had))
  where
    d : Chat
    d = run_chat es c

    answer : Bool → Bool
    answer b =
        let r : Chat × Bool =
          if b
          then (
            record (put s (record o { is_open = false }) d) {
              sent = d.sent ++ (s, name_taken) ∷ [];
            },
            false,
          )
          else (record d { clients = insert o.nickname s d.clients }, true) in
        r.1
