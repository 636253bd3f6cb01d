-- ===== src/ChatServer/Names.antt =====
-- The nicknames of boost_Chat_Server/Server.cpp.

use socket_communication.Common.{
  if◌then◌else◌, ◌==◌, nat_eq, int_eq, bytes_eq, string_eq, Bool-cases, ==_iff, is_empty, lookup,
  has_key, insert, lookup-insert, bytes_of, ℕ, ◌≡◌, refl, sym, ap, subst, ◌∙◌, inl, inr, Bool, true,
  false, Option, none, some, List, [], ◌∷◌, ◌++◌, arith,
}
use socket_communication.Db.{Text, room_status_eq, game_status_eq}
use socket_communication.ChatServer.{
  Service, Chat, Event, name_taken, new_chat, put, take_line, broadcast_message, register_client,
  after_registering, on_line, on_service, on_reader, new_service, on_event, run_chat, accepts,
  arrives, ready, fails,
}

-- A service that reads under a nickname is the one that the map has under it.
abbrev pub IsNamed : Chat → Type 0
IsNamed c =
    (s : ℕ) (o : Service)
    → lookup s c.services ≡ some o
    → o.is_reading ≡ true
    → is_empty o.nickname ≡ false
    → lookup o.nickname c.clients ≡ some s

-- Every nickname stays with its socket.
abbrev pub Extends : List (Text × ℕ) → List (Text × ℕ) → Type 0
Extends m m' = (name : Text) (s : ℕ) → lookup name m ≡ some s → lookup name m' ≡ some s

some-injective {ℓ} : {A : Type ℓ} (a b : A) → some a ≡ some b → a ≡ b
some-injective a b e = cc

-- A service is put into the table, and the map grows.
put-IsNamed :
    (s : ℕ) (o : Service) (c c' : Chat)
    → IsNamed c
    → c'.services ≡ insert s o c.services
    → Extends c.clients c'.clients
    → (o.is_reading ≡ true → is_empty o.nickname ≡ false → lookup o.nickname c'.clients ≡ some s)
    → IsNamed c'
put-IsNamed s o c c' n e grows own i p found reads named = elim (Bool-cases (s == i)) [
  | inl here ↦
      let same : o ≡ p = some-injective o p (ground (arith, at, here)) in
      let i_is : s ≡ i = ground (arith, here) in
      subst (λ k. lookup p.nickname c'.clients ≡ some k) i_is
        (subst
          (λ p.
            p.is_reading ≡ true
            → is_empty p.nickname ≡ false
            → lookup p.nickname c'.clients ≡ some s)
          same own reads named)
  | inr there ↦ grows p.nickname i (n i p (ground (arith, at, there)) reads named)
]
  where
    at : (if s == i then some o else lookup i c.services) ≡ some p
    at = sym (lookup-insert s i o c.services) ∙ ap (lookup i) (sym e) ∙ found

pub insert-Extends :
    (name : Text) (s : ℕ) (m : List (Text × ℕ))
    → has_key name m ≡ false
    → Extends m (insert name s m)
insert-Extends name s m h other i found = lookup-insert name other s m ∙ kept (name == other) refl
  where
    kept : (b : Bool) → (name == other) ≡ b → (if b then some s else lookup other m) ≡ some i
    kept true e =
        let there : has_key name m ≡ true =
          ap (λ o. elim o as (λ _. Bool) [ none ↦ false | some v ↦ true ])
            (ap (λ k. lookup k m) ((==_iff name other).0 e) ∙ found) in
        absurd (ground (arith, h, there))
    kept false e = found

-- A service that does not read has no duty.
idle_duty :
    (s : ℕ) (o : Service) (m : List (Text × ℕ))
    → o.is_reading ≡ false
    → o.is_reading ≡ true
    → is_empty o.nickname ≡ false
    → lookup o.nickname m ≡ some s
idle_duty s o m h k e = absurd (ground (arith, h, k))

register_client-IsNamed :
    (s : ℕ) (d : Service) (c : Chat)
    → IsNamed c
    → d.is_reading ≡ false
    → IsNamed (after_registering s d (register_client s d c))
unfolding register_client after_registering broadcast_message
register_client-IsNamed s d c n idle = go (has_key d.nickname c.clients) refl
  where
    closed : Service
    closed = record d { is_open = false }

    listed : Chat
    listed = record c { clients = insert d.nickname s c.clients }

    reading : Service
    reading = record d { is_reading = true }

    go :
        (taken : Bool)
        → has_key d.nickname c.clients ≡ taken
        → IsNamed (
            after_registering s d (
              if taken
              then (record (put s closed c) { sent = c.sent ++ (s, name_taken) ∷ [] }, false)
              else (listed, true)))
    go true e =
        put-IsNamed s closed c (put s closed c) n refl (λ k i h. h)
          (idle_duty s closed c.clients idle)
    go false e =
        let put_in : lookup d.nickname listed.clients ≡ some s =
          lookup-insert d.nickname d.nickname s c.clients
          ∙ ap (λ b. if b then some s else lookup d.nickname c.clients)
              ((==_iff d.nickname d.nickname).1 refl) in
        put-IsNamed s reading c (put s reading listed) n refl
          (insert-Extends d.nickname s c.clients e) (λ r i. put_in)

on_line-IsNamed :
    (s : ℕ) (o : Service) (message : Text) (c : Chat)
    → IsNamed c
    → o.is_reading ≡ false
    → (is_empty o.nickname ≡ false → lookup o.nickname c.clients ≡ some s)
    → IsNamed (on_line s o message c)
unfolding on_line broadcast_message
on_line-IsNamed s o message c n idle own = go (is_empty o.nickname) refl
  where
    named : Service
    named = record o { nickname = message }

    go :
        (b : Bool)
        → is_empty o.nickname ≡ b
        → IsNamed (
            if b
            then after_registering s named (register_client s named (put s named c))
            else broadcast_message
                (o.nickname ++ (bytes_of ": " ++ message))
                (put s (record o { is_reading = true }) c))
    go true e =
        register_client-IsNamed s named (put s named c)
          (put-IsNamed s named c (put s named c) n refl (λ k i h. h)
            (idle_duty s named c.clients idle))
          idle
    go false e =
        put-IsNamed s (record o { is_reading = true }) c (put s (record o { is_reading = true }) c)
          n refl (λ k i h. h) (λ r i. own e)

on_service-IsNamed :
    (e : Event) (s : ℕ) (o : Service) (c : Chat)
    → IsNamed c
    → lookup s c.services ≡ some o
    → o.is_reading ≡ true
    → IsNamed (on_service e s o c)
unfolding on_service
on_service-IsNamed accepts s o c n found reads = n
on_service-IsNamed (arrives i t) s o c n found reads =
    let grown : Service = record o { request = o.request ++ t } in
    put-IsNamed s grown c (put s grown c) n refl (λ k j h. h) (λ r e. n s o found reads e)
on_service-IsNamed (fails i) s o c n found reads =
    let failed : Service = record o { is_reading = false } in
    put-IsNamed s failed c (put s failed c) n refl (λ k j h. h) (idle_duty s failed c.clients refl)
on_service-IsNamed (ready i) s o c n found reads = go (take_line o.request)
  where
    go :
        (l : Option (Text × Text))
        → IsNamed (elim l as (λ _. Chat) [
          | none ↦ c
          | some p ↦ on_line s (record o { request = p.1; is_reading = false }) p.0 c
        ])
    go none = n
    go (some p) =
        on_line-IsNamed s (record o { request = p.1; is_reading = false }) p.0 c n refl
          (λ e. n s o found reads e)

on_reader-IsNamed :
    (e : Event) (s : ℕ) (c : Chat) → IsNamed c → IsNamed (on_reader e s (lookup s c.services) c)
on_reader-IsNamed e s c n = go (lookup s c.services) refl
  where
    chosen :
        (o : Service) (b : Bool)
        → lookup s c.services ≡ some o
        → o.is_reading ≡ b
        → IsNamed (if b then on_service e s o c else c)
    chosen o true found reads = on_service-IsNamed e s o c n found reads
    chosen o false found reads = n

    go : (r : Option Service) → lookup s c.services ≡ r → IsNamed (on_reader e s r c)
    go none found = n
    go (some o) found = chosen o o.is_reading found refl

on_event-IsNamed : (e : Event) (c : Chat) → IsNamed c → IsNamed (on_event e c)
unfolding on_event
on_event-IsNamed accepts c n =
    put-IsNamed c.next_service new_service c (on_event accepts c) n refl (λ k i h. h)
      (λ r e. absurd (ground (arith, e)))
on_event-IsNamed (arrives s t) c n = on_reader-IsNamed (arrives s t) s c n
on_event-IsNamed (ready s) c n = on_reader-IsNamed (ready s) s c n
on_event-IsNamed (fails s) c n = on_reader-IsNamed (fails s) s c n

run_chat-IsNamed : (es : List Event) (c : Chat) → IsNamed c → IsNamed (run_chat es c)
unfolding run_chat
run_chat-IsNamed [] c n = n
run_chat-IsNamed (e ∷ es) c n = run_chat-IsNamed es (on_event e c) (on_event-IsNamed e c n)

-- After any run of the chat server, in any order of arrivals and reads, a connection that still reads
-- under a nickname that is not empty is the one that the map has under it.
pub nickname_is_own :
    (es : List Event) (s : ℕ) (o : Service)
    → lookup s (run_chat es new_chat).services ≡ some o
    → o.is_reading ≡ true
    → is_empty o.nickname ≡ false
    → lookup o.nickname (run_chat es new_chat).clients ≡ some s
unfolding lookup
nickname_is_own es =
    run_chat-IsNamed es new_chat (λ k q none_there r e. absurd (ground (arith, none_there)))

-- So two connections that read under the same nickname are one.
nicknames_differ :
    (es : List Event) (s i : ℕ) (o p : Service)
    → lookup s (run_chat es new_chat).services ≡ some o
    → lookup i (run_chat es new_chat).services ≡ some p
    → o.is_reading ≡ true
    → p.is_reading ≡ true
    → is_empty o.nickname ≡ false
    → o.nickname ≡ p.nickname
    → s ≡ i
nicknames_differ es s i o p found found' reads reads' named same = some-injective s i (
    sym (nickname_is_own es s o found reads named)
    ∙ ap (λ k. lookup k (run_chat es new_chat).clients) same
    ∙ nickname_is_own es i p found' reads' (subst (λ k. is_empty k ≡ false) same named))
