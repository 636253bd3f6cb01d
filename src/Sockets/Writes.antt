-- ===== src/Sockets/Writes.antt =====
-- boost_Practice/02_IO_Operations/write.cpp and async_write_some.cpp send the whole buffer.

use mathlib.Core.List.{append-nil, append_assoc}
use socket_communication.Common.{
  if◌then◌else◌, ltb, ◌==◌, nat_eq, int_eq, bytes_eq, string_eq, Bool-cases, ==_iff, length, drop,
  take, ℕ, zero, suc, ◌+◌, ◌-◌, ◌≤◌, ◌<◌, ◌≡◌, refl, sym, ap, subst, ◌∙◌, ◌⊎◌, inl, inr, Bool, true,
  false, Option, none, some, [], ◌∷◌, ◌++◌, arith,
}
use socket_communication.Db.{Text, room_status_eq, game_status_eq}
use socket_communication.Sockets.{
  Transfer, Choices, next_amount, write_from, write_to_socket, start_write, on_written, run_writes,
  finished, broken, unfinished,
}
use socket_communication.Sockets.Texts.{take-drop, drop-drop, take-take, drop_all}

-- Whether one of the calls fails.
unfoldable pub has_error : Choices → Bool
has_error [] = false
has_error (none ∷ cs) = true
has_error (some k ∷ cs) = has_error cs

-- A transfer that ends: all of `text` has followed what was there, or, where a call has failed, a
-- beginning of it.
abbrev pub Sends : Choices → Text → Text → Transfer → Type 0
Sends cs text wire (finished w rest) = w ≡ wire ++ text
Sends cs text wire (broken w rest) = (has_error cs ≡ true) × ((m : ℕ) × (w ≡ wire ++ take m text))
Sends cs text wire unfinished = ⊥

-- What a call transfers is one byte at least and no more than there is.
pub next_amount-bounds :
    (cs : Choices) (left n : ℕ) → 0 < left → (next_amount cs left).0 ≡ some n → (0 < n) × (n ≤ left)
next_amount-bounds [] left n l e = (ground (arith, e, l), ground (arith, e, l))
next_amount-bounds (none ∷ cs) left n l e = absurd (ground (arith, e))
next_amount-bounds (some k ∷ cs) left n l e = (ground (arith, e, l), ground (arith, e, l))

pub next_amount-error :
    (cs : Choices) (left : ℕ) → has_error (next_amount cs left).1 ≡ true → has_error cs ≡ true
unfolding has_error
next_amount-error [] left e = e
next_amount-error (none ∷ cs) left e = refl
next_amount-error (some k ∷ cs) left e = e

pub next_amount-fails :
    (cs : Choices) (left : ℕ) → (next_amount cs left).0 ≡ none → has_error cs ≡ true
unfolding has_error
next_amount-fails [] left e = absurd (ground (arith, e))
next_amount-fails (none ∷ cs) left e = refl
next_amount-fails (some k ∷ cs) left e = absurd (ground (arith, e))

-- A transfer of `n` bytes and then of what is left is one of all.
after_piece :
    (cs cs' : Choices) (n : ℕ) (text wire : Text) (r : Transfer)
    → (has_error cs' ≡ true → has_error cs ≡ true)
    → Sends cs' (drop n text) (wire ++ take n text) r
    → Sends cs text wire r
after_piece cs cs' n text wire (finished w rest) f h =
    h ∙ append_assoc wire (take n text) (drop n text) ∙ ap (λ t. wire ++ t) (take-drop n text)
after_piece cs cs' n text wire (broken w rest) f (e, (m, h)) = (
  f e,
  (
    n + m,
    h
        ∙ append_assoc wire (take n text) (take m (drop n text))
        ∙ ap (λ t. wire ++ t) (take-take n m text),
  ),
)
after_piece cs cs' n text wire unfinished f h = h

write_from-Sends :
    (fuel : ℕ) (cs : Choices) (buf : Text) (total : ℕ) (wire : Text)
    → total ≤ length buf
    → length buf - total < fuel
    → Sends cs (drop total buf) wire (write_from fuel cs buf total wire)
unfolding write_from take
write_from-Sends zero cs buf total wire l f = absurd (omega (arith, f))
write_from-Sends (suc fuel) cs buf total wire l f =
    go (write_from-Sends fuel) (Bool-cases (total == length buf))
      (next_amount cs (length buf - total)) refl
  where
    go :
        ((cs : Choices) (buf : Text) (total : ℕ) (wire : Text)
          → total ≤ length buf
          → length buf - total < fuel
          → Sends cs (drop total buf) wire (write_from fuel cs buf total wire))
        → ((total == length buf) ≡ true) ⊎ ((total == length buf) ≡ false)
        → (c : Option ℕ × Choices) → next_amount cs (length buf - total) ≡ c
        → Sends cs (drop total buf) wire (
            if total == length buf then finished wire cs else elim c.0 as (λ _. Transfer) [
              | none ↦ broken wire c.1
              | some n ↦ write_from fuel c.1 buf (total + n) (wire ++ take n (drop total buf))
            ])
    go later (inl done) c e = rw done (
        let whole : total ≡ length buf = (==_iff total (length buf)).0 done in
        sym (append-nil wire)
        ∙ ap (λ t. wire ++ t) (sym (ap (λ k. drop k buf) whole ∙ drop_all buf)))
    go later (inr more) (none, rest) e =
        rw more
          (next_amount-fails cs (length buf - total) (ap (λ c. c.0) e), (0, sym (append-nil wire)))
    go later (inr more) (some n, rest) e = rw more (
        let left : 0 < length buf - total = ground (arith, more, l) in
        let (lo, hi) = next_amount-bounds cs (length buf - total) n left (ap (λ c. c.0) e) in
        after_piece cs rest n (drop total buf) wire
          (write_from fuel rest buf (total + n) (wire ++ take n (drop total buf)))
          (λ h. next_amount-error cs (length buf - total) (ap (λ c. has_error c.1) e ∙ h))
          (subst
            (λ t.
              Sends rest t (wire ++ take n (drop total buf))
                (write_from fuel rest buf (total + n) (wire ++ take n (drop total buf))))
            (sym (drop-drop total n buf))
            (later rest buf (total + n) (wire ++ take n (drop total buf)) (omega (arith, lo, hi, l))
              (omega (arith, lo, hi, l, f)))))

-- The callbacks of async_write_some.cpp do what the loop of write.cpp does.
run_writes-loop :
    (fuel : ℕ) (cs : Choices) (buf : Text) (total : ℕ) (wire : Text) (more : Bool)
    → total ≤ length buf
    → more ≡ ltb total (length buf)
    → run_writes fuel cs
        (record { buf = buf; total_bytes_written = total; wire = wire; is_writing = more })
      ≡ write_from fuel cs buf total wire
unfolding run_writes write_from on_written
run_writes-loop zero cs buf total wire more l e = refl
run_writes-loop (suc fuel) cs buf total wire more l e =
    go (run_writes-loop fuel) (Bool-cases (total == length buf))
      (next_amount cs (length buf - total)) refl
  where
    go :
        ((cs : Choices) (buf : Text) (total : ℕ) (wire : Text) (more : Bool)
          → total ≤ length buf
          → more ≡ ltb total (length buf)
          → run_writes fuel cs
              (record { buf = buf; total_bytes_written = total; wire = wire; is_writing = more })
            ≡ write_from fuel cs buf total wire)
        → ((total == length buf) ≡ true) ⊎ ((total == length buf) ≡ false)
        → (c : Option ℕ × Choices) → next_amount cs (length buf - total) ≡ c
        → (if more
            then elim c.0 as (λ _. Transfer) [
              | none ↦ broken wire c.1
              | some n ↦ run_writes fuel c.1 (record {
                buf = buf;
                total_bytes_written = total + n;
                wire = wire ++ take n (drop total buf);
                is_writing = ltb (total + n) (length buf);
              })
            ]
            else finished wire cs)
          ≡ (if total == length buf then finished wire cs else elim c.0 as (λ _. Transfer) [
            | none ↦ broken wire c.1
            | some n ↦ write_from fuel c.1 buf (total + n) (wire ++ take n (drop total buf))
          ])
    go later (inl done) c k =
        let off : more ≡ false = e ∙ ground (arith, done) in rw off (rw done refl)
    go later (inr not_yet) (none, rest) k =
        let on : more ≡ true = e ∙ ground (arith, not_yet, l) in rw on (rw not_yet refl)
    go later (inr not_yet) (some n, rest) k =
        let on : more ≡ true = e ∙ ground (arith, not_yet, l) in
        let left : 0 < length buf - total = ground (arith, not_yet, l) in
        let (lo, hi) = next_amount-bounds cs (length buf - total) n left (ap (λ c. c.0) k) in
        rw on (
          rw not_yet (
            later rest buf (total + n) (wire ++ take n (drop total buf))
              (ltb (total + n) (length buf)) (omega (arith, lo, hi, l)) refl))

-- However the socket takes the bytes, the loop of write.cpp and, for a buffer that is not empty, the
-- callbacks of async_write_some.cpp end within as many rounds as bytes and one: all of the buffer is
-- then on the wire, in order and once, behind what was there; where a call has failed, a beginning of
-- it.
pub writes-Sends :
    (cs : Choices) (buf wire : Text)
    → 0 < length buf
    → Sends cs buf wire (write_to_socket cs buf wire)
      × Sends cs buf wire (run_writes (suc (length buf)) cs (start_write buf wire))
unfolding write_to_socket drop
writes-Sends cs buf wire l =
    let sent : Sends cs buf wire (write_to_socket cs buf wire) =
      write_from-Sends (suc (length buf)) cs buf 0 wire (omega arith) (omega arith) in
    (
      sent,
      subst (Sends cs buf wire)
          (sym (
            run_writes-loop (suc (length buf)) cs buf 0 wire true (omega arith)
              (ground (arith, l))))
          sent,
    )
