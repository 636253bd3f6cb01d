-- ===== src/Sockets.antt =====
-- boost_Practice/02_IO_Operations: writing and reading all of a buffer by calls that transfer a part of
-- it. What a call transfers is the socket's to say: a list of choices, one for each call.

pub mod Texts
pub mod Writes
pub mod Reads
pub mod Services
pub mod Parallel
pub mod Exchange
pub mod Stopping
use socket_communication.Common.{
  if◌then◌else◌, ltb, leb, ◌==◌, nat_eq, int_eq, bytes_eq, string_eq, length, is_empty, drop, take,
  ℕ, zero, suc, ◌+◌, ◌-◌, Bool, true, false, not, Option, none, some, List, [], ◌∷◌, ◌++◌,
}
use socket_communication.Db.{Text, room_status_eq, game_status_eq}

-- `some k`: a transfer of k + 1 bytes, or of all that there is where that is less; `none`: an error.
-- Behind the end of the list, all is transferred.
abbrev pub Choices : Type 0
Choices = List (Option ℕ)

abbrev pub smaller : ℕ → ℕ → ℕ
smaller a b = if leb a b then a else b

abbrev pub amount : ℕ → ℕ → ℕ
amount k left = smaller (suc k) left

-- What `write_some` and `read_some` transfer of `left` bytes, of which there is one at least.
abbrev pub next_amount : Choices → ℕ → Option ℕ × Choices
next_amount [] left = (some left, [])
next_amount (none ∷ cs) left = (none, cs)
next_amount (some k ∷ cs) left = (some (amount k left), cs)

-- How a transfer ends: with what is on the wire, or in the buffer, and the choices to come; by an
-- exception; or within the fuel not at all.
pub data Transfer : Type 0 where
  finished broken : Text → Choices → Transfer
  unfinished : Transfer

-- The loop of `writeToSocket` of write.cpp, with what is on the wire.
unfoldable pub write_from : ℕ → Choices → Text → ℕ → Text → Transfer
write_from zero cs buf total wire = unfinished
write_from (suc fuel) cs buf total wire =
    let (n, rest) = next_amount cs (length buf - total) in
    let later : Transfer = elim n as (λ _. Transfer) [
      | none ↦ broken wire rest
      | some n ↦ write_from fuel rest buf (total + n) (wire ++ take n (drop total buf))
    ] in
    if total == length buf then finished wire cs else later

-- `writeToSocket`: each round writes a byte at least, so as many rounds as bytes and one are enough.
unfoldable pub write_to_socket : Choices → Text → Text → Transfer
unfolding write_from
write_to_socket cs buf wire = write_from (suc (length buf)) cs buf 0 wire

-- The loop of `readFromSocket` of read.cpp, over the bytes that the peer sends before it closes; where
-- there are no more, `read_some` throws.
unfoldable pub read_from : ℕ → Choices → ℕ → Text → Text → Transfer
read_from zero cs size stream buf = unfinished
read_from (suc fuel) cs size stream buf =
    let (n, rest) = next_amount cs (smaller (size - length buf) (length stream)) in
    let later : Transfer = elim n as (λ _. Transfer) [
      | none ↦ broken buf rest
      | some n ↦ read_from fuel rest size (drop n stream) (buf ++ take n stream)
    ] in
    if length buf == size then finished buf cs else if is_empty stream then broken buf cs else later

unfoldable pub read_from_socket : Choices → Text → Transfer
unfolding read_from
read_from_socket cs stream = read_from 8 cs 7 stream []

-- async_write_some.cpp: the session of a write that is under way; `wire` is what the socket has taken,
-- and `is_writing` whether an operation is pending.
pub record WriteSession : Type 0 where
  pub buf : Text
  pub total_bytes_written : ℕ
  pub wire : Text
  pub is_writing : Bool

-- `writeToSocket` there.
abbrev pub start_write : Text → Text → WriteSession
start_write buf wire = record { buf = buf; total_bytes_written = 0; wire = wire; is_writing = true }

-- The callback, with the bytes that the operation before has transferred, `none` for an error.
unfoldable pub on_written : Option ℕ → WriteSession → WriteSession
on_written none s = record s { is_writing = false }
on_written (some n) s =
    let total = s.total_bytes_written + n in
    record s {
      total_bytes_written = total;
      wire = s.wire ++ take n (drop s.total_bytes_written s.buf);
      is_writing = ltb total (length s.buf);
    }

-- The event loop, as long as an operation is pending.
unfoldable pub run_writes : ℕ → Choices → WriteSession → Transfer
unfolding on_written
run_writes zero cs s = unfinished
run_writes (suc fuel) cs s =
    let (n, rest) = next_amount cs (length s.buf - s.total_bytes_written) in
    let later : Transfer = elim n as (λ _. Transfer) [
      | none ↦ broken s.wire rest
      | some n ↦ run_writes fuel rest (on_written (some n) s)
    ] in
    if s.is_writing then later else finished s.wire cs

-- async_read_some.cpp: the session of a read that is under way, over the bytes that the peer sends.
pub record ReadSession : Type 0 where
  pub buf : Text
  pub total_bytes_read : ℕ
  pub buf_size : ℕ
  pub stream : Text
  pub is_reading : Bool

abbrev pub start_read : ℕ → Text → ReadSession
start_read size stream = record {
  buf = [];
  total_bytes_read = 0;
  buf_size = size;
  stream = stream;
  is_reading = true;
}

-- The callback.
unfoldable pub on_read : Option ℕ → ReadSession → ReadSession
on_read none s = record s { is_reading = false }
on_read (some n) s =
    let total = s.total_bytes_read + n in
    record s {
      buf = s.buf ++ take n s.stream;
      total_bytes_read = total;
      stream = drop n s.stream;
      is_reading = not (total == s.buf_size);
    }

-- The event loop; where the peer sends no more, the operation fails.
unfoldable pub run_reads : ℕ → Choices → ReadSession → Transfer
unfolding on_read
run_reads zero cs s = unfinished
run_reads (suc fuel) cs s =
    let (n, rest) = next_amount cs (smaller (s.buf_size - s.total_bytes_read) (length s.stream)) in
    let later : Transfer = elim n as (λ _. Transfer) [
      | none ↦ broken s.buf rest
      | some n ↦ run_reads fuel rest (on_read (some n) s)
    ] in
    if s.is_reading
    then (if is_empty s.stream then broken s.buf cs else later)
    else finished s.buf cs
