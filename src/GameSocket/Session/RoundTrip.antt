-- ===== src/GameSocket/Session/RoundTrip.antt =====
-- GameSocketServer/src/session.cpp: the reader of headers on the header that the writer makes.

use socket_communication.GameSocket.Effects.{done}
use socket_communication.GameSocket.AuthApi.{Library}
use socket_communication.GameSocket.Session.{
  Client, crlf, blank_line, length_key, response_header, write_response, run_events, reading_header,
  writing, received,
}
use socket_communication.GameSocket.Session.Framing.{
  Declares, Delivered, AllNonempty, joined, any_split_delivers,
}
use socket_communication.GameSocket.Find.{length-append, take_all, NoReturn, find_at-skip}
use socket_communication.GameSocket.Decimal.{to_string-AllDigits, stoul-to_string}
use socket_communication.Common.{
  nat_eq, length, All-imp, bytes_of, drop, take, substr, starts_with, find_at, find, to_string,
  max_ulong, stoul, ℕ, ◌+◌, ◌-◌, ◌≤◌, ◌≡◌, refl, ap, ◌∙◌, some, List, [], ◌∷◌, ◌++◌, map, arith,
}
use socket_communication.Db.{Text, fits}

-- Digits hold no line end.
number-NoReturn : (n : ℕ) → NoReturn (to_string n)
number-NoReturn n = All-imp _ _ (to_string n) (λ c d. ground arith) (to_string-AllDigits n)

-- What follows the number in the header.
abbrev header_tail : Text
header_tail = crlf ++ (bytes_of "Connection: keep-alive" ++ (crlf ++ crlf))

module _ (n : ℕ) where
  line_end : ℕ
  line_end = 65 + length (to_string n)

  key_there : find length_key 0 (response_header n) ≡ some 49
  unfolding find find_at drop starts_with nat_eq response_header
  key_there = refl

  line_there : find crlf 49 (response_header n) ≡ some line_end
  unfolding find find_at drop starts_with nat_eq response_header line_end
  line_there = find_at-skip (10 ∷ []) 65 (to_string n) header_tail (number-NoReturn n)

  blank_there : find blank_line 0 (response_header n) ≡ some (line_end + 24)
  unfolding find find_at drop starts_with nat_eq response_header line_end
  blank_there =
      find_at-skip (10 ∷ 13 ∷ 10 ∷ []) 65 (to_string n) header_tail (number-NoReturn n)
      ∙ ap some (omega arith)

  number_there : substr 65 (line_end - 65) (response_header n) ≡ to_string n
  unfolding substr drop response_header line_end
  number_there =
      ap (λ k. take k (to_string n ++ header_tail)) (omega arith)
      ∙ take_all (to_string n) header_tail

  length-header : line_end + 24 + 4 ≡ length (response_header n)
  unfolding response_header line_end
  length-header = omega (arith, length-append (to_string n) header_tail)

-- The header that `write_response` makes for a body declares its length, if an `unsigned long` holds
-- it.
pub response_header-Declares : (n : ℕ) → n ≤ max_ulong → Declares (response_header n) n
unfolding line_end
response_header-Declares n h = record {
  at = 49;
  line_end = line_end n;
  last = line_end n + 24;
  key_found = key_there n;
  line_found = line_there n;
  value = ap stoul (number_there n) ∙ stoul-to_string n ∙ ground arith;
  blank_found = blank_there n;
  whole = length-header n;
}

-- `write_response` puts a header and the body on the wire at once, and the session waits for that to end.
-- These bytes, however they are cut into pieces after the header, `read_header` and `read_body` of
-- another session read back: the body that was written is processed.
pub read-write_response :
    (x : Library) (body part : Text) (ts : List Text) (c d : Client)
    → length body ≤ max_ulong
    → body ≡ part ++ joined ts
    → AllNonempty ts
    → c.session.phase ≡ reading_header
    → (header : Text) × (write_response body d
        ≡ done tt (record d {
          session = record d.session { phase = writing };
          sent = d.sent ++ (header ++ body) ∷ [];
        }))
      × Delivered x body c (run_events x (map received ((header ++ part) ∷ ts)) c)
unfolding write_response
read-write_response x body part ts c d fits b e p = (
  response_header (length body),
  refl,
  any_split_delivers x (response_header (length body)) body (length body) part ts c
      (response_header-Declares (length body) fits) refl b e p,
)
