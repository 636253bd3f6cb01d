-- ===== src/GameSocket/Session/Lengths.antt =====
-- GameSocketServer/src/session.cpp: the number that a header declares.

use Prim.Native.Nat.{◌%◌, ◌^◌}
use mathlib.Core.Option
use socket_communication.GameSocket.Session.{
  crlf, length_key, length_in_line, length_after, content_length,
}
use socket_communication.Common.{
  find, skip_spaces, read_digits, max_ulong, in_ulong, unsigned_here, signed_here, stoul, ℕ, ◌-◌,
  ◌≤◌, ◌≡◌, Option, none, some, [], ◌∷◌, arith,
}
use socket_communication.Db.{Text}

in_ulong-le : (n k : ℕ) → in_ulong n ≡ some k → k ≤ max_ulong
unfolding in_ulong
in_ulong-le n k h = ground arith

unsigned_here-le : (t : Text) (k : ℕ) → unsigned_here t ≡ some k → k ≤ max_ulong
unfolding unsigned_here
unsigned_here-le [] k h = cc
unsigned_here-le (c ∷ t) k h = ground (arith, in_ulong-le (read_digits 0 (c ∷ t)) k)

negated-le :
    (o : Option ℕ) (k : ℕ) → Option.map (λ n. (2 ^ 64 - n) % 2 ^ 64) o ≡ some k → k ≤ max_ulong
negated-le none k h = cc
negated-le (some n) k h = ground arith

signed_here-le : (t : Text) (k : ℕ) → signed_here t ≡ some k → k ≤ max_ulong
unfolding signed_here
signed_here-le [] k h = cc
signed_here-le (c ∷ t) k h =
    ground (arith, negated-le (unsigned_here t) k, unsigned_here-le t k, unsigned_here-le (c ∷ t) k)

-- What `stoul` answers, an `unsigned long` holds.
pub stoul-le : (t : Text) (k : ℕ) → stoul t ≡ some k → k ≤ max_ulong
unfolding stoul
stoul-le t k h = signed_here-le (skip_spaces t) k h

length_in_line-le :
    (h : Text) (at : ℕ) (o : Option ℕ) (k : ℕ) → length_in_line h at o ≡ some k → k ≤ max_ulong
unfolding length_in_line
length_in_line-le h at none k e = ground arith
length_in_line-le h at (some l) k e = stoul-le _ k e

length_after-le : (h : Text) (o : Option ℕ) (k : ℕ) → length_after h o ≡ some k → k ≤ max_ulong
unfolding length_after
length_after-le h none k e = ground arith
length_after-le h (some at) k e = length_in_line-le h at (find crlf at h) k e

-- What a header declares, a `size_t` holds.
pub content_length-le : (h : Text) (k : ℕ) → content_length h ≡ some k → k ≤ max_ulong
unfolding content_length
content_length-le h k e = length_after-le h (find length_key 0 h) k e
