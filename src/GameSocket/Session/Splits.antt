-- ===== src/GameSocket/Session/Splits.antt =====
-- GameSocketServer/src/session.cpp: what the reader makes of bytes behind a body, and of a length that
-- is no number.

use mathlib.Core.List.{append-nil}
use socket_communication.GameSocket.Effects.{other_error, done, raised}
use socket_communication.GameSocket.AuthApi.{Library}
use socket_communication.GameSocket.Session.{
  Client, Event, crlf, length_key, length_in_line, length_after, content_length, with_length,
  header_received, run_events, reading_header, received,
}
use socket_communication.GameSocket.Session.Framing.{
  Declares, header_received-append, Delivered, in_body, body_complete, continue, body_step,
  run_nothing, header_waits, header_step,
}
use socket_communication.GameSocket.Find.{length-append, take_all, NoReturn, find_at-skip}
use socket_communication.Common.{
  leb, ◌==◌, nat_eq, int_eq, bytes_eq, string_eq, length, drop, take, substr, starts_with, find_at,
  find, is_digit, is_space, skip_spaces, unsigned_here, signed_here, stoul, ℕ, ◌+◌, ◌-◌, ◌<◌, ◌≡◌,
  refl, sym, ap, ◌∙◌, true, false, none, some, List, [], ◌∷◌, ◌++◌, arith,
}
use socket_communication.Db.{Text, room_status_eq, game_status_eq}

-- Where a header declares the length of a body that is not empty, bytes that follow the body are
-- dropped if they arrive with the header and the body, and are processed as a part of the body if the
-- body and they arrive after the header.
pub extra_bytes_by_split :
    (x : Library) (h body extra : Text) (n : ℕ) (c : Client)
    → Declares h n
    → n ≡ length body
    → 0 < n
    → c.session.phase ≡ reading_header
    → Delivered x body c (run_events x (received (h ++ (body ++ extra)) ∷ []) c)
      × Delivered x (body ++ extra) c (run_events x (received h ∷ received (body ++ extra) ∷ []) c)
extra_bytes_by_split x h body extra n c d l some_body p =
    let both = length-append body extra in
    let all_there : leb n (length (body ++ extra)) ≡ true = ground (arith, l, both) in
    let cut : take n (body ++ extra) ≡ body =
      ap (λ k. take k (body ++ extra)) l ∙ take_all body extra in
    let alone : h ++ [] ≡ h = append-nil h in
    let nothing_off : n - 0 ≡ n = omega arith in
    (
      (
        c,
        header_step x (h ++ (body ++ extra)) [] c p
            ∙ ap (continue x [])
                (header_received-append h n d (body ++ extra) x c ∙ rw (all_there, cut) refl)
            ∙ run_nothing x _,
        record { store_kept = refl; sent_kept = refl; user_kept = refl; token_kept = refl },
      ),
      (
        in_body n (body ++ extra) c,
        header_step x h (received (body ++ extra) ∷ []) c p
            ∙ ap (continue x (received (body ++ extra) ∷ []))
                (ap (λ t. header_received x t c) (sym alone) ∙ header_waits x h n [] c d some_body)
            ∙ ap (λ k. continue x (received (body ++ extra) ∷ []) (done tt (in_body k [] c)))
                nothing_off
            ∙ body_step x (body ++ extra) [] n [] c
            ∙ ap (continue x []) (body_complete x n (body ++ extra) [] c (omega (arith, l, both)))
            ∙ run_nothing x _,
        record { store_kept = refl; sent_kept = refl; user_kept = refl; token_kept = refl },
      ),
    )

-- A byte that no number begins with.
abbrev pub IsNoNumber : ℕ → Type 0
IsNoNumber c =
    (is_digit c ≡ false) × (is_space c ≡ false) × ((c == b'-') ≡ false) × ((c == b'+') ≡ false)

-- A header that begins with the key and a value.
abbrev with_value : Text → Text → Text
with_value v rest = length_key ++ (v ++ (crlf ++ rest))

line_there : (v rest : Text) → NoReturn v → find crlf 0 (with_value v rest) ≡ some (16 + length v)
unfolding find find_at drop starts_with nat_eq
line_there v rest r = find_at-skip (10 ∷ []) 16 v (crlf ++ rest) r

value_there : (v rest : Text) → substr 16 (16 + length v - 16) (with_value v rest) ≡ v
unfolding substr drop
value_there v rest =
    ap (λ k. take k (v ++ (crlf ++ rest))) (omega arith) ∙ take_all v (crlf ++ rest)

content_length-with_value :
    (v rest : Text) → NoReturn v → content_length (with_value v rest) ≡ stoul v
content_length-with_value v rest r =
    unfold content_length in
    unfold length_after in
    ap (length_after (with_value v rest)) key_there
    ∙ ap (length_in_line (with_value v rest) 0) (line_there v rest r)
    ∙ ap stoul (value_there v rest)
  where
    key_there : find length_key 0 (with_value v rest) ≡ some 0
    key_there =
        unfold find in unfold find_at in unfold drop in unfold starts_with in unfold nat_eq in refl

stoul-none : (c : ℕ) (t : Text) → IsNoNumber c → stoul (c ∷ t) ≡ none
unfolding stoul skip_spaces signed_here unsigned_here
stoul-none c t n = ground arith

-- A first packet whose Content-Length line begins with a byte that begins no number ends the server:
-- the exception of `stoul` leaves the handler, whatever would have followed.
pub bad_length_ends_server :
    (x : Library) (c : ℕ) (t rest : Text) (es : List Event) (client : Client)
    → IsNoNumber c
    → NoReturn (c ∷ t)
    → client.session.phase ≡ reading_header
    → run_events x (received (length_key ++ ((c ∷ t) ++ (crlf ++ rest))) ∷ es) client
      ≡ raised other_error client
bad_length_ends_server x c t rest es client n r p =
    header_step x (with_value (c ∷ t) rest) es client p
    ∙ ap (continue x es) (refuses (content_length-with_value (c ∷ t) rest r ∙ stoul-none c t n))
  where
    refuses :
        content_length (with_value (c ∷ t) rest) ≡ none
        → header_received x (with_value (c ∷ t) rest) client ≡ raised other_error client
    refuses e =
        unfold header_received in
        unfold with_length in ap (λ o. with_length x (with_value (c ∷ t) rest) o client) e
