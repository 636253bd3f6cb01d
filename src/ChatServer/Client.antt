-- ===== src/ChatServer/Client.antt =====
-- boost_Chat_Server/Client.cpp: the messages whose writes are started, and the reader of lines. In which
-- order the writes of the two threads reach the socket, and whether overlapping ones mix, is not decided
-- by this code.

use socket_communication.Common.{
  if◌then◌else◌, ◌==◌, nat_eq, int_eq, bytes_eq, string_eq, length, All, bytes_of, ℕ, zero, suc,
  ◌≡◌, refl, ap, ◌∙◌, false, Option, none, some, List, [], ◌∷◌, ◌++◌, map,
}
use socket_communication.Db.{Text, room_status_eq, game_status_eq}
use socket_communication.ChatServer.{take_line}

-- `sendMessage`: the bytes that are written.
unfoldable pub send_message : Text → Text
send_message message = message ++ (b'\n' ∷ [])

abbrev pub quit : Text
quit = bytes_of "/quit"

-- The loop of `main` over the lines that the user types: the messages whose writes are started, until
-- "/quit". The I/O library's thread starts the write of the nickname when it has connected, before, between
-- or after them, and `ios.stop()` drops what is not written yet.
unfoldable pub type_lines : List Text → List Text
unfolding send_message
type_lines [] = []
type_lines (l ∷ ls) = let later = type_lines ls in if l == quit then [] else send_message l ∷ later

-- The handler of `readMessage`: a line is printed and taken out of the buffer.
unfoldable pub read_message : Text → Option (Text × Text)
unfolding take_line
read_message t = take_line t

-- The lines that are read from a text, one read after another, at most so many.
unfoldable pub read_lines : ℕ → Text → List Text
read_lines zero t = []
read_lines (suc k) t = elim (take_line t) [ none ↦ [] | some p ↦ p.0 ∷ read_lines k p.1 ]

-- Messages on the wire, each written whole.
abbrev pub wire : List Text → Text
wire [] = []
wire (m ∷ ms) = m ++ wire ms

-- A line as `getline` gives it.
abbrev pub IsLine : Text → Type 0
IsLine = All (λ b. (b == b'\n') ≡ false)

take_line-send_message :
    (l rest : Text) → IsLine l → take_line (send_message l ++ rest) ≡ some (l, rest)
unfolding take_line send_message nat_eq
take_line-send_message [] rest h = refl
take_line-send_message (b ∷ l) rest (h, hs) = rw (h, take_line-send_message l rest hs) refl

read_lines-step :
    (k : ℕ) (t l rest : Text)
    → take_line t ≡ some (l, rest)
    → read_lines (suc k) t ≡ l ∷ read_lines k rest
unfolding read_lines
read_lines-step k t l rest e =
    ap (λ o. elim o as (λ _. List Text) [ none ↦ [] | some p ↦ p.0 ∷ read_lines k p.1 ]) e

-- Messages that are written whole, one after another in any order, are read back line by line.
pub read-send_message :
    (ls : List Text) → All IsLine ls → read_lines (length ls) (wire (map send_message ls)) ≡ ls
unfolding read_lines
read-send_message [] h = refl
read-send_message (l ∷ ls) (h, hs) =
    read_lines-step (length ls) _ l (wire (map send_message ls))
      (take_line-send_message l (wire (map send_message ls)) h)
    ∙ ap (◌∷◌ l) (read-send_message ls hs)
