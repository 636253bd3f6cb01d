-- ===== src/GameSocket/Session/Keeps.antt =====
-- What a whole connection of GameSocketServer/src/session.cpp does to the database: what the handlers
-- of requests keep, a run of events keeps.

use mathlib.Core.List.Perm
use socket_communication.GameSocket.Effects.{
  Tried, ◌>>=◌, ◌>>◌, give, Leads, Leads-bind, Leads-imp, sql_error, other_error,
  undefined_behaviour, done, raised,
}
use socket_communication.GameSocket.Store.{Store}
use socket_communication.GameSocket.AuthApi.{
  AuthRequest, Answer, Library, handle_request, unknown_action, refused, registered, logged_in,
}
use socket_communication.GameSocket.AuthApi.Connections.{MayLeak, Costs, handle_request-Charged}
use socket_communication.GameSocket.Session.{
  Phase, Client, Event, Handler, blank_line, set_phase, write_response, action_of, on_store,
  note_login, process_checked, or_invalid, process_request, content_length, split_body, with_length,
  header_received, body_received, on_event, run_events, reading_header, writing, ended,
  reading_body, received, written, io_error,
}
use socket_communication.Common.{
  if◌then◌else◌, leb, ◌==◌, nat_eq, int_eq, bytes_eq, string_eq, length, drop, take, find, ℕ, ◌+◌,
  ◌-◌, String, sym, subst, inl, inr, Bool, true, false, not, ◌||◌, Option, none, some, List, [],
  ◌∷◌, ◌++◌, Perm,
}
use socket_communication.Db.{Text, room_status_eq, game_status_eq}
use socket_communication.Protocol.{Field, absent, mistyped, given}
use socket_communication.DbPool.{DbPool}
use socket_communication.DbPool.Slots.{IsValid, held}

module _ (x : Library) (I : Store → Type 0)
    (keeps : (q : AuthRequest) (s : Store)
      → I s
      → Leads (λ _ s'. I s') (λ _ s'. I s') (handle_request x q s)) where
  abbrev Held : Tried Client (Unit {0}) → Type 0
  Held = Leads (λ _ c'. I c'.store) (λ _ c'. I c'.store)

  stored-Held :
      (q : AuthRequest) (c : Client)
      → I c.store
      → Leads (λ _ c'. I c'.store) (λ _ c'. I c'.store) (on_store (handle_request x q) c)
  stored-Held q c i = go (handle_request x q c.store) (keeps q c.store i)
    where
      go :
          (r : Tried Store Answer)
          → Leads (λ _ s'. I s') (λ _ s'. I s') r
          → Leads
              (λ _ c'. I c'.store)
              (λ _ c'. I c'.store)
              (elim r as (λ _. Tried Client Answer) [
                | done a s ↦ done a (record c { store = s })
                | raised e s ↦ raised e (record c { store = s })
              ])
      go (done a s) h = h
      go (raised e s) h = h

  noted-Held : (a : Option Answer) (c : Client) → I c.store → Held (note_login a c)
  noted-Held none c i = i
  noted-Held (some a) c i = i

  answered-Held :
      (a : String) (r : Answer) (c : Client)
      → I c.store
      → Held (
          ((if a == "login" then note_login (x.parse_answer (x.dump r)) else give tt)
              >> write_response (x.dump r))
            c)
  unfolding write_response
  answered-Held a r c i =
      Leads-bind (λ _ c'. I c'.store) (λ _ c'. I c'.store) (λ _ c'. I c'.store)
        (if a == "login" then note_login (x.parse_answer (x.dump r)) else give tt)
        (λ _. write_response (x.dump r)) c (noted (a == "login")) (λ u c' h. h)
    where
      noted : (b : Bool) → Held ((if b then note_login (x.parse_answer (x.dump r)) else give tt) c)
      noted true = noted-Held (x.parse_answer (x.dump r)) c i
      noted false = i

  checked-Held : (o : Option AuthRequest) (c : Client) → I c.store → Held (process_checked x o c)
  unfolding process_checked write_response
  checked-Held none c i = i
  checked-Held (some q) c i = go q.action
    where
      serve : String → Handler
      serve a = on_store (handle_request x q) >>= λ answer.
          (if a == "login" then note_login (x.parse_answer (x.dump answer)) else give tt)
          >> write_response (x.dump answer)

      chosen :
          (a : String) (b : Bool)
          → Held ((if b then write_response (x.dump (refused unknown_action)) else serve a) c)
      chosen a true = i
      chosen a false =
          Leads-bind (λ _ c'. I c'.store) (λ _ c'. I c'.store) (λ _ c'. I c'.store)
            (on_store (handle_request x q)) _ c (stored-Held q c i)
            (λ answer c' h. answered-Held a answer c' h)

      go :
          (f : Field String)
          → Held (
              (action_of f >>= λ action.
              if not (action == "register" || action == "login")
              then write_response (x.dump (refused unknown_action))
              else serve action)
                c)
      go absent = i
      go mistyped = i
      go (given a) = chosen a (not (a == "register" || a == "login"))

  process_request-Held : (t : Text) (c : Client) → I c.store → Held (process_request x t c)
  unfolding process_request write_response
  process_request-Held t c i = go (process_checked x (x.parse t) c) (checked-Held (x.parse t) c i)
    where
      go : (r : Tried Client (Unit {0})) → Held r → Held (or_invalid x r)
      go (done u c) h = h
      go (raised undefined_behaviour c) h = h
      go (raised sql_error c) h = h
      go (raised other_error c) h = h

  header_received-Held : (t : Text) (c : Client) → I c.store → Held (header_received x t c)
  unfolding header_received with_length split_body
  header_received-Held t c i = go (content_length t)
    where
      cut :
          (n : ℕ) (part : Text) (b : Bool)
          → Held (
              (if b
                then process_request x (take n part) c
                else done tt (record c {
                  session = record c.session {
                    message = part;
                    phase = reading_body (n - length part);
                  };
                })))
      cut n part true = process_request-Held (take n part) c i
      cut n part false = i

      split : (n : ℕ) (at : Option ℕ) → Held (split_body x n t at c)
      split n none = i
      split n (some at) = cut n (drop (at + 4) t) (leb n (length (drop (at + 4) t)))

      go : (o : Option ℕ) → Held (with_length x t o c)
      go none = i
      go (some n) = split n (find blank_line 0 t)

  body_received-Held : (n : ℕ) (t : Text) (c : Client) → I c.store → Held (body_received x n t c)
  unfolding body_received
  body_received-Held n t c i = go (leb n (length t))
    where
      grown : Client
      grown = record c { session = record c.session { message = c.session.message ++ t } }

      go :
          (b : Bool)
          → Held (
              if b
              then process_request x grown.session.message grown
              else done tt (set_phase (reading_body (n - length t)) grown))
      go true = process_request-Held grown.session.message grown i
      go false = i

  pub on_event-Held : (e : Event) (p : Phase) (c : Client) → I c.store → Held (on_event x e p c)
  unfolding on_event
  on_event-Held (received t) reading_header c i = header_received-Held t c i
  on_event-Held (received t) (reading_body n) c i = body_received-Held n t c i
  on_event-Held (received t) writing c i = i
  on_event-Held (received t) ended c i = i
  on_event-Held written writing c i = i
  on_event-Held written reading_header c i = i
  on_event-Held written (reading_body n) c i = i
  on_event-Held written ended c i = i
  on_event-Held io_error p c i = i

  pub run_events-Held : (es : List Event) (c : Client) → I c.store → Held (run_events x es c)
  unfolding run_events
  run_events-Held [] c i = i
  run_events-Held (e ∷ es) c i =
      Leads-bind (λ _ c'. I c'.store) (λ _ c'. I c'.store) (λ _ c'. I c'.store)
        (λ c. on_event x e c.session.phase c) _ c (on_event-Held e c.session.phase c i)
        (λ u c' h. run_events-Held es c' h)

-- The pool `p` with more connections in use.
abbrev pub Drained : DbPool → DbPool → Type 0
Drained p p' = IsValid p' × ((more : List ℕ) × Perm (held p') (more ++ held p))

Drained-more : (p p' p'' : DbPool) → Drained p p' → MayLeak p' p'' → Drained p p''
Drained-more p p' p'' (v, (more, m)) (inl e) = subst (Drained p) (sym e) (v, (more, m))
Drained-more p p' p'' (v, (more, m)) (inr (v', (c, l))) =
    (v', (c ∷ more, Perm.trans l (Perm.cons c m)))

-- A request does not give back what is in use.
pub handle_request-Drained :
    (x : Library) (p : DbPool) (q : AuthRequest) (s : Store)
    → Drained p s.pool
    → Leads (λ _ s'. Drained p s'.pool) (λ _ s'. Drained p s'.pool) (handle_request x q s)
handle_request-Drained x p q s d =
    Leads-imp (λ a s'. Costs s.pool a s'.pool) (λ _ s'. MayLeak s.pool s'.pool) _ _
      (handle_request x q s) (λ a s' k. Drained-more p s.pool s'.pool d (may a s.pool s'.pool k))
      (λ e s' k. Drained-more p s.pool s'.pool d k) (handle_request-Charged x q s d.0)
  where
    may : (a : Answer) (p p' : DbPool) → Costs p a p' → MayLeak p p'
    may (refused r) p p' k = k
    may (registered id name) p p' k = inr k
    may (logged_in w) p p' k = inr k
