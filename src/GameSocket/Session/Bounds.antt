-- ===== src/GameSocket/Session/Bounds.antt =====
-- GameSocketServer/src/session.cpp: the count of bytes that `read_body` still waits for.

use socket_communication.GameSocket.Effects.{
  Tried, ◌>>=◌, ◌>>◌, give, reached, Leads, sql_error, other_error, undefined_behaviour, done,
  raised,
}
use socket_communication.GameSocket.Store.{Store}
use socket_communication.GameSocket.AuthApi.{
  AuthRequest, Answer, Library, handle_request, unknown_action, refused,
}
use socket_communication.GameSocket.Session.{
  Phase, Client, Event, blank_line, write_response, action_of, on_store, note_login,
  process_checked, or_invalid, process_request, content_length, split_body, with_length,
  header_received, body_received, on_event, run_events, reading_header, writing, ended,
  reading_body, received, written, io_error,
}
use socket_communication.GameSocket.Session.Lengths.{content_length-le}
use socket_communication.Common.{
  if◌then◌else◌, leb, ◌==◌, nat_eq, int_eq, bytes_eq, string_eq, Bool-cases, length, drop, take,
  find, max_ulong, ℕ, ◌+◌, ◌≤◌, ◌<◌, String, ◌≡◌, refl, sym, subst, inl, inr, not, ◌||◌, Option,
  none, some, List, [], ◌∷◌, ◌++◌, arith,
}
use socket_communication.Db.{Text, room_status_eq, game_status_eq}
use socket_communication.Protocol.{Field, absent, mistyped, given}

-- A wait for the body is for one byte or more, as many as a `size_t` holds.
abbrev pub InBounds : Phase → Type 0
InBounds (reading_body n) = (0 < n) × (n ≤ max_ulong)
InBounds _ = Unit {0}

-- After a request the answer is being written, or the phase is the old one.
abbrev Turns : Phase → Tried Client (Unit {0}) → Type 0
Turns p = Leads (λ u c. c.session.phase ≡ writing) (λ e c. c.session.phase ≡ p)

noted :
    (o : Option Answer) (t : Text) (c : Client)
    → Turns c.session.phase ((note_login o >> write_response t) c)
unfolding write_response
noted none t c = refl
noted (some a) t c = refl

answered :
    (x : Library) (a : String) (c : Client) (r : Tried Store Answer)
    → Turns c.session.phase (
        (on_store (λ s. r) >>= λ answer.
        (if a == "login" then note_login (x.parse_answer (x.dump answer)) else give tt)
        >> write_response (x.dump answer))
          c)
unfolding write_response
answered x a c (raised e s) = refl
answered x a c (done answer s) = elim (Bool-cases (a == "login")) [
  | inl login ↦
      rw login (noted (x.parse_answer (x.dump answer)) (x.dump answer) (record c { store = s }))
  | inr other ↦ rw other refl
]

routed :
    (x : Library) (q : AuthRequest) (a : String) (c : Client)
    → Turns c.session.phase (
        (if not (a == "register" || a == "login")
            then write_response (x.dump (refused unknown_action))
            else (on_store (handle_request x q) >>= λ answer.
                (if a == "login" then note_login (x.parse_answer (x.dump answer)) else give tt)
                >> write_response (x.dump answer)))
          c)
unfolding write_response
routed x q a c = elim (Bool-cases (not (a == "register" || a == "login"))) [
  | inl unknown ↦ rw unknown refl
  | inr known ↦ rw known (answered x a c (handle_request x q c.store))
]

process_checked-Turns :
    (x : Library) (o : Option AuthRequest) (c : Client)
    → Turns c.session.phase (process_checked x o c)
unfolding process_checked
process_checked-Turns x none c = refl
process_checked-Turns x (some q) c = go q.action
  where
    go :
        (f : Field String)
        → Turns c.session.phase (
            (action_of f >>= λ a.
            if not (a == "register" || a == "login")
            then write_response (x.dump (refused unknown_action))
            else (on_store (handle_request x q) >>= λ answer.
                (if a == "login" then note_login (x.parse_answer (x.dump answer)) else give tt)
                >> write_response (x.dump answer)))
              c)
    go absent = refl
    go mistyped = refl
    go (given a) = routed x q a c

or_invalid-Turns :
    (x : Library) (p : Phase) (r : Tried Client (Unit {0})) → Turns p r → Turns p (or_invalid x r)
unfolding write_response
or_invalid-Turns x p (done u c) t = t
or_invalid-Turns x p (raised undefined_behaviour c) t = t
or_invalid-Turns x p (raised sql_error c) t = refl
or_invalid-Turns x p (raised other_error c) t = refl

process_request-Turns :
    (x : Library) (body : Text) (c : Client) → Turns c.session.phase (process_request x body c)
unfolding process_request
process_request-Turns x body c =
    or_invalid-Turns x c.session.phase _ (process_checked-Turns x (x.parse body) c)

abbrev Stays : Tried Client (Unit {0}) → Type 0
Stays r = InBounds (reached r).session.phase

Stays-of_Turns : (p : Phase) (r : Tried Client (Unit {0})) → InBounds p → Turns p r → Stays r
Stays-of_Turns p (done u c) b t = subst InBounds (sym t) tt
Stays-of_Turns p (raised e c) b t = subst InBounds (sym t) b

process_request-Stays :
    (x : Library) (body : Text) (c : Client)
    → InBounds c.session.phase
    → Stays (process_request x body c)
process_request-Stays x body c b =
    Stays-of_Turns c.session.phase _ b (process_request-Turns x body c)

split_body-Stays :
    (x : Library) (n : ℕ) (t : Text) (o : Option ℕ) (c : Client)
    → n ≤ max_ulong
    → InBounds c.session.phase
    → Stays (split_body x n t o c)
unfolding split_body
split_body-Stays x n t none c l b = tt
split_body-Stays x n t (some at) c l b = elim (Bool-cases (leb n (length (drop (at + 4) t)))) [
  | inl enough ↦ rw enough (process_request-Stays x (take n (drop (at + 4) t)) c b)
  | inr short ↦ rw short (ground arith, ground arith)
]

with_length-Stays :
    (x : Library) (t : Text) (o : Option ℕ) (c : Client)
    → ((k : ℕ) → o ≡ some k → k ≤ max_ulong)
    → InBounds c.session.phase
    → Stays (with_length x t o c)
unfolding with_length
with_length-Stays x t none c h b = b
with_length-Stays x t (some n) c h b = split_body-Stays x n t (find blank_line 0 t) c (h n refl) b

header_received-Stays :
    (x : Library) (t : Text) (c : Client) → InBounds c.session.phase → Stays (header_received x t c)
unfolding header_received
header_received-Stays x t c b = with_length-Stays x t (content_length t) c (content_length-le t) b

body_received-Stays :
    (x : Library) (n : ℕ) (t : Text) (c : Client)
    → n ≤ max_ulong
    → InBounds c.session.phase
    → Stays (body_received x n t c)
unfolding body_received
body_received-Stays x n t c l b = elim (Bool-cases (leb n (length t))) [
  | inl enough ↦ rw enough (
      process_request-Stays x (c.session.message ++ t)
        (record c { session = record c.session { message = c.session.message ++ t } }) b)
  | inr short ↦ rw short (ground arith, ground arith)
]

on_event-Stays :
    (x : Library) (e : Event) (p : Phase) (c : Client)
    → InBounds p
    → c.session.phase ≡ p
    → Stays (on_event x e p c)
unfolding on_event
on_event-Stays x (received t) reading_header c b s =
    header_received-Stays x t c (subst InBounds (sym s) b)
on_event-Stays x (received t) (reading_body n) c b s =
    body_received-Stays x n t c b.1 (subst InBounds (sym s) b)
on_event-Stays x (received t) writing c b s = subst InBounds (sym s) b
on_event-Stays x (received t) ended c b s = subst InBounds (sym s) b
on_event-Stays x written reading_header c b s = subst InBounds (sym s) b
on_event-Stays x written (reading_body n) c b s = subst InBounds (sym s) b
on_event-Stays x written writing c b s = tt
on_event-Stays x written ended c b s = subst InBounds (sym s) b
on_event-Stays x io_error p c b s = tt

-- From a session that waits for no body, whatever bytes and errors arrive in whatever pieces: while a
-- session waits for the rest of a body, the number of bytes that it waits for is between 1 and the
-- largest `size_t`, so no subtraction of lengths has wrapped around.
pub run_events-InBounds :
    (x : Library) (es : List Event) (c : Client)
    → InBounds c.session.phase
    → InBounds (reached (run_events x es c)).session.phase
unfolding run_events
run_events-InBounds x [] c b = b
run_events-InBounds x (e ∷ es) c b =
    go (on_event x e c.session.phase c) (on_event-Stays x e c.session.phase c b refl)
      (run_events-InBounds x es)
  where
    go :
        (r : Tried Client (Unit {0}))
        → Stays r
        → ((c' : Client) → InBounds c'.session.phase → Stays (run_events x es c'))
        → Stays (elim r [ done u c' ↦ run_events x es c' | raised f c' ↦ raised f c' ])
    go (done u c') s k = k c' s
    go (raised f c') s k = s
