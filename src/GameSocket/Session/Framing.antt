-- ===== src/GameSocket/Session/Framing.antt =====
-- GameSocketServer/src/session.cpp: how a request is put together from the pieces that are read.

use mathlib.Core.List.{append-nil, append_assoc}
use socket_communication.GameSocket.Effects.{Tried, done, raised}
use socket_communication.GameSocket.AuthApi.{Library}
use socket_communication.GameSocket.Session.{
  Client, Event, crlf, blank_line, length_key, process_request, length_in_line, length_after,
  content_length, split_body, with_length, header_received, body_received, on_event, run_events,
  reading_header, reading_body, received,
}
use socket_communication.GameSocket.Find.{
  length-append, drop_all, substr-append, find-le, find-append,
}
use socket_communication.Common.{
  if◌then◌else◌, leb, Bool-cases, length, All, take, substr, find, stoul, ℕ, ◌+◌, ◌-◌, ◌≤◌, ◌<◌,
  ◌≡◌, refl, sym, ap, ◌∙◌, inl, inr, true, false, some, List, [], ◌∷◌, ◌++◌, map, arith,
}
use socket_communication.Db.{Text}

-- A whole header that declares a body of `n` bytes.
pub record Declares (h : Text) (n : ℕ) : Type 0 where
  pub at : ℕ
  pub line_end : ℕ
  pub last : ℕ
  pub key_found : find length_key 0 h ≡ some at
  pub line_found : find crlf at h ≡ some line_end
  pub value :
      stoul (substr (at + length length_key) (line_end - (at + length length_key)) h) ≡ some n
  pub blank_found : find blank_line 0 h ≡ some last
  pub whole : last + 4 ≡ length h

module _ (h : Text) (n : ℕ) (d : Declares h n) (rest : Text) where
  content_length-append : content_length (h ++ rest) ≡ some n
  unfolding content_length length_after length_in_line
  content_length-append =
      let key = find-le length_key 0 h d.at (omega arith) d.key_found in
      let line = find-le crlf d.at h d.line_end (omega (arith, key.1)) d.line_found in
      rw
        (
          find-append length_key 0 h rest d.at (omega arith) d.key_found,
          find-append crlf d.at h rest d.line_end (omega (arith, key.1)) d.line_found,
          substr-append (d.at + length length_key) (d.line_end - (d.at + length length_key)) h rest
              (omega (arith, key.1, line.1)),
        )
        d.value

  pub header_received-append :
      (x : Library) (c : Client)
      → header_received x (h ++ rest) c ≡ (
          if leb n (length rest)
          then process_request x (take n rest) c
          else done tt (record c {
            session = record c.session { message = rest; phase = reading_body (n - length rest) };
          }))
  unfolding header_received with_length split_body
  header_received-append x c =
      rw (content_length-append, find-append blank_line 0 h rest d.last (omega arith) d.blank_found)
        (rw (d.whole, drop_all h rest) refl)

-- The database, what was sent and who is logged in are as they were.
pub record Kept (c c' : Client) : Type 0 where
  pub store_kept : c'.store ≡ c.store
  pub sent_kept : c'.sent ≡ c.sent
  pub user_kept : c'.session.user_id ≡ c.session.user_id
  pub token_kept : c'.session.auth_token ≡ c.session.auth_token

-- A request is processed in a state that differs from `c` in the buffer and the phase only.
abbrev pub Delivered : Library → Text → Client → Tried Client (Unit {0}) → Type 0
Delivered x body c r = (c' : Client) × (r ≡ process_request x body c') × Kept c c'

abbrev pub AllNonempty : List Text → Type 0
AllNonempty = All (λ t. 0 < length t)

unfoldable pub joined : List Text → Text
joined [] = []
joined (t ∷ ts) = t ++ joined ts

length-joined :
    (t : Text) (ts : List Text) → length (joined (t ∷ ts)) ≡ length t + length (joined ts)
unfolding joined
length-joined t ts = length-append t (joined ts)

pub take_whole : (t : Text) → take (length t) t ≡ t
unfolding take
take_whole [] = refl
take_whole (c ∷ t) = ap (◌∷◌ c) (take_whole t)

abbrev pub in_body : ℕ → Text → Client → Client
in_body n m c = record c { session = record c.session { message = m; phase = reading_body n } }

-- One piece that completes the body, and one that does not.
pub body_complete :
    (x : Library) (n : ℕ) (t m : Text) (c : Client)
    → n ≤ length t
    → body_received x n t (in_body n m c) ≡ process_request x (m ++ t) (in_body n (m ++ t) c)
unfolding body_received
body_complete x n t m c h = elim (Bool-cases (leb n (length t))) [
  | inl enough ↦ rw enough refl
  | inr short ↦ absurd (ground arith)
]

body_partial :
    (x : Library) (n : ℕ) (t m : Text) (c : Client)
    → length t < n
    → body_received x n t (in_body n m c) ≡ done tt (in_body (n - length t) (m ++ t) c)
unfolding body_received
body_partial x n t m c h = elim (Bool-cases (leb n (length t))) [
  | inl enough ↦ absurd (ground arith)
  | inr short ↦ rw short refl
]

-- What the events after one do, from what that one does.
abbrev pub continue : Library → List Event → Tried Client (Unit {0}) → Tried Client (Unit {0})
continue x es r = elim r [ done u c ↦ run_events x es c | raised e c ↦ raised e c ]

pub body_step :
    (x : Library) (t : Text) (es : List Event) (n : ℕ) (m : Text) (c : Client)
    → run_events x (received t ∷ es) (in_body n m c)
      ≡ continue x es (body_received x n t (in_body n m c))
unfolding run_events
body_step x t es n m c = refl

pub run_nothing : (x : Library) (r : Tried Client (Unit {0})) → continue x [] r ≡ r
unfolding run_events
run_nothing x (done u c) = refl
run_nothing x (raised e c) = refl

body_pieces :
    (x : Library) (t : Text) (ts : List Text) (n : ℕ) (m : Text) (c : Client)
    → AllNonempty (t ∷ ts)
    → n ≡ length (joined (t ∷ ts))
    → Delivered x (m ++ joined (t ∷ ts)) c (run_events x (map received (t ∷ ts)) (in_body n m c))
body_pieces x t [] n m c e l =
    let one : joined (t ∷ []) ≡ t = unfold joined in append-nil t in
    (
      in_body n (m ++ t) c,
      body_step x t [] n m c
          ∙ ap (continue x []) (body_complete x n t m c (omega (arith, l, ap length one)))
          ∙ run_nothing x _
          ∙ ap (λ b. process_request x (m ++ b) (in_body n (m ++ t) c)) (sym one),
      record { store_kept = refl; sent_kept = refl; user_kept = refl; token_kept = refl },
    )
body_pieces x t (u ∷ ts) n m c (e, es) l =
    let more = length-joined t (u ∷ ts) in
    let some_left = length-joined u ts in
    let (c', eq, same) = body_pieces x u ts (n - length t) (m ++ t) c es (omega (arith, l, more)) in
    (
      c',
      body_step x t (map received (u ∷ ts)) n m c
          ∙ ap (continue x (map received (u ∷ ts)))
              (body_partial x n t m c (omega (arith, l, more, some_left, es.0)))
          ∙ eq
          ∙ ap (λ b. process_request x b c') (unfold joined in append_assoc m t (joined (u ∷ ts))),
      same,
    )

pub header_waits :
    (x : Library) (h : Text) (n : ℕ) (part : Text) (c : Client)
    → Declares h n
    → length part < n
    → header_received x (h ++ part) c ≡ done tt (in_body (n - length part) part c)
header_waits x h n part c d lt =
    let waits : leb n (length part) ≡ false = ground arith in
    header_received-append h n d part x c ∙ rw waits refl

pub header_step :
    (x : Library) (t : Text) (es : List Event) (c : Client)
    → c.session.phase ≡ reading_header
    → run_events x (received t ∷ es) c ≡ continue x es (header_received x t c)
unfolding run_events on_event
header_step x t es c p = ap (λ q. continue x es (on_event x (received t) q c)) p

-- However the bytes of a request are cut into pieces, as long as the first has the whole header and
-- none is empty, the request that is processed is the body, whole and alone, and until then only the
-- buffer and the phase of the session have changed.
pub any_split_delivers :
    (x : Library) (h body : Text) (n : ℕ) (part : Text) (ts : List Text) (c : Client)
    → Declares h n
    → n ≡ length body
    → body ≡ part ++ joined ts
    → AllNonempty ts
    → c.session.phase ≡ reading_header
    → Delivered x body c (run_events x (map received ((h ++ part) ∷ ts)) c)
any_split_delivers x h body n part [] c d l b e p =
    let same : body ≡ part = b ∙ unfold joined in append-nil part in
    let all_there : leb n (length part) ≡ true = ground (arith, l, ap length same) in
    let cut : take n part ≡ body =
      ap (λ k. take k part) (l ∙ ap length same) ∙ take_whole part ∙ sym same in
    (
      c,
      header_step x (h ++ part) [] c p
          ∙ ap (continue x []) (header_received-append h n d part x c ∙ rw (all_there, cut) refl)
          ∙ run_nothing x _,
      record { store_kept = refl; sent_kept = refl; user_kept = refl; token_kept = refl },
    )
any_split_delivers x h body n part (t ∷ ts) c d l b e p =
    let total = ap length b ∙ length-append part (joined (t ∷ ts)) in
    let more = length-joined t ts in
    let (c', eq, same) = body_pieces x t ts (n - length part) part c e (omega (arith, l, total)) in
    (
      c',
      header_step x (h ++ part) (map received (t ∷ ts)) c p
          ∙ ap (continue x (map received (t ∷ ts)))
              (header_waits x h n part c d (omega (arith, l, total, more, e.0)))
          ∙ eq
          ∙ ap (λ q. process_request x q c') (sym b),
      same,
    )
