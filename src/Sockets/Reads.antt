-- ===== src/Sockets/Reads.antt =====
-- boost_Practice/02_IO_Operations/read.cpp and async_read_some.cpp read a whole message.

use mathlib.Core.List.{append-nil, append_assoc}
use socket_communication.Common.{
  if◌then◌else◌, ◌==◌, nat_eq, int_eq, bytes_eq, string_eq, Bool-cases, ==_iff, length, is_empty,
  drop, take, ℕ, zero, suc, ◌+◌, ◌-◌, ◌≤◌, ◌<◌, ◌≡◌, refl, sym, ap, subst, ◌∙◌, ◌⊎◌, inl, inr, true,
  false, not, Option, none, some, [], ◌++◌, arith,
}
use socket_communication.Db.{Text, fits, room_status_eq, game_status_eq}
use socket_communication.Sockets.{
  Transfer, Choices, smaller, next_amount, read_from, read_from_socket, start_read, on_read,
  run_reads, finished, broken, unfinished,
}
use socket_communication.Sockets.Texts.{
  take-take, length-take, length-append, length-drop, is_empty-length, empty-length,
}
use socket_communication.Sockets.Writes.{
  has_error, next_amount-bounds, next_amount-error, next_amount-fails,
}

-- A transfer that ends: the first `need` bytes of the stream have followed what was there, or a call has
-- failed or the stream has fewer.
abbrev pub Gets : Choices → ℕ → Text → Text → Transfer → Type 0
Gets cs need stream buf (finished b rest) = (b ≡ buf ++ take need stream) × (need ≤ length stream)
Gets cs need stream buf (broken b rest) = (has_error cs ≡ true) ⊎ (length stream < need)
Gets cs need stream buf unfinished = ⊥

smaller_bounds : (a b n : ℕ) → n ≤ smaller a b → (n ≤ a) × (n ≤ b)
smaller_bounds a b n l = (ground (arith, l), ground (arith, l))

smaller_positive : (a b : ℕ) → 0 < a → 0 < b → 0 < smaller a b
smaller_positive a b l k = ground (arith, l, k)

-- A transfer of `n` bytes and then of the rest.
after_piece :
    (cs cs' : Choices) (n need : ℕ) (stream buf : Text) (r : Transfer)
    → (has_error cs' ≡ true → has_error cs ≡ true)
    → n ≤ need
    → n ≤ length stream
    → Gets cs' (need - n) (drop n stream) (buf ++ take n stream) r
    → Gets cs need stream buf r
after_piece cs cs' n need stream buf (finished b rest) f l k (e, m) =
    let whole : n + (need - n) ≡ need = omega (arith, l) in
    (
      e
          ∙ append_assoc buf (take n stream) (take (need - n) (drop n stream))
          ∙ ap (λ t. buf ++ t) (take-take n (need - n) stream ∙ ap (λ i. take i stream) whole),
      omega (arith, m, length-drop n stream k, k, l),
    )
after_piece cs cs' n need stream buf (broken b rest) f l k (inl e) = inl (f e)
after_piece cs cs' n need stream buf (broken b rest) f l k (inr m) =
    inr (omega (arith, m, length-drop n stream k, k, l))
after_piece cs cs' n need stream buf unfinished f l k h = h

read_from-Gets :
    (fuel : ℕ) (cs : Choices) (size : ℕ) (stream buf : Text)
    → length buf ≤ size
    → size - length buf < fuel
    → Gets cs (size - length buf) stream buf (read_from fuel cs size stream buf)
unfolding read_from take
read_from-Gets zero cs size stream buf l f = absurd (omega (arith, f))
read_from-Gets (suc fuel) cs size stream buf l f =
    go (read_from-Gets fuel) (Bool-cases (length buf == size)) (Bool-cases (is_empty stream))
      (next_amount cs (smaller (size - length buf) (length stream))) refl
  where
    go :
        ((cs : Choices) (size : ℕ) (stream buf : Text)
          → length buf ≤ size
          → size - length buf < fuel
          → Gets cs (size - length buf) stream buf (read_from fuel cs size stream buf))
        → ((length buf == size) ≡ true) ⊎ ((length buf == size) ≡ false)
        → (is_empty stream ≡ true) ⊎ (is_empty stream ≡ false)
        → (c : Option ℕ × Choices)
        → next_amount cs (smaller (size - length buf) (length stream)) ≡ c
        → Gets cs (size - length buf) stream buf (
            if length buf == size
            then finished buf cs
            else if is_empty stream
            then broken buf cs
            else elim c.0 as (λ _. Transfer) [
              | none ↦ broken buf c.1
              | some n ↦ read_from fuel c.1 size (drop n stream) (buf ++ take n stream)
            ])
    go later (inl done) em c e = rw done (
        let all : length buf ≡ size = (==_iff (length buf) size).0 done in
        let nothing : size - length buf ≡ 0 = omega (arith, all) in
        (
          sym (append-nil buf) ∙ ap (λ k. buf ++ take k stream) (sym nothing),
          omega (arith, nothing),
        ))
    go later (inr more) (inl em) c e =
        rw more (rw em (inr (ground (arith, more, l, empty-length stream em))))
    go later (inr more) (inr some_left) (none, rest) e =
        rw more (rw some_left (inl (next_amount-fails cs _ (ap (λ c. c.0) e))))
    go later (inr more) (inr some_left) (some n, rest) e = rw more (
        rw some_left (
          let wanted : 0 < smaller (size - length buf) (length stream) =
            smaller_positive (size - length buf) (length stream) (ground (arith, more, l))
              (is_empty-length stream some_left) in
          let (lo, hi) =
            next_amount-bounds cs (smaller (size - length buf) (length stream)) n wanted
              (ap (λ c. c.0) e) in
          let (fits, there) = smaller_bounds (size - length buf) (length stream) n hi in
          let longer : length (buf ++ take n stream) ≡ length buf + n =
            length-append buf (take n stream)
            ∙ ap (λ k. length buf + k) (length-take n stream there) in
          let need : size - length (buf ++ take n stream) ≡ size - length buf - n =
            omega (arith, longer) in
          after_piece cs rest n (size - length buf) stream buf _
            (λ h. next_amount-error cs _ (ap (λ c. has_error c.1) e ∙ h)) fits there
            (subst
              (λ k.
                Gets rest k (drop n stream) (buf ++ take n stream)
                  (read_from fuel rest size (drop n stream) (buf ++ take n stream)))
              need
              (later rest size (drop n stream) (buf ++ take n stream)
                (omega (arith, longer, fits, l)) (omega (arith, longer, fits, l, lo, f))))))

run_reads-loop :
    (fuel : ℕ) (cs : Choices) (size : ℕ) (stream buf : Text) (total : ℕ)
    → length buf ≤ size
    → total ≡ length buf
    → run_reads fuel cs (record {
      buf = buf;
      total_bytes_read = total;
      buf_size = size;
      stream = stream;
      is_reading = not (total == size);
    })
      ≡ read_from fuel cs size stream buf
unfolding run_reads read_from on_read
run_reads-loop zero cs size stream buf total l e = refl
run_reads-loop (suc fuel) cs size stream buf total l e =
    go (run_reads-loop fuel) (Bool-cases (total == size)) (Bool-cases (is_empty stream))
      (next_amount cs (smaller (size - length buf) (length stream))) refl
      (next_amount cs (smaller (size - total) (length stream)))
      (ap (λ k. next_amount cs (smaller (size - k) (length stream))) e)
  where
    go :
        ((cs : Choices) (size : ℕ) (stream buf : Text) (total : ℕ)
          → length buf ≤ size
          → total ≡ length buf
          → run_reads fuel cs (record {
            buf = buf;
            total_bytes_read = total;
            buf_size = size;
            stream = stream;
            is_reading = not (total == size);
          })
            ≡ read_from fuel cs size stream buf)
        → ((total == size) ≡ true) ⊎ ((total == size) ≡ false)
        → (is_empty stream ≡ true) ⊎ (is_empty stream ≡ false)
        → (c : Option ℕ × Choices)
        → next_amount cs (smaller (size - length buf) (length stream)) ≡ c
        → (c' : Option ℕ × Choices)
        → c' ≡ next_amount cs (smaller (size - length buf) (length stream))
        → (if not (total == size)
            then (if is_empty stream then broken buf cs else elim c'.0 as (λ _. Transfer) [
              | none ↦ broken buf c'.1
              | some n ↦ run_reads fuel c'.1 (record {
                buf = buf ++ take n stream;
                total_bytes_read = total + n;
                buf_size = size;
                stream = drop n stream;
                is_reading = not (total + n == size);
              })
            ])
            else finished buf cs)
          ≡ (if length buf == size
              then finished buf cs
              else if is_empty stream
              then broken buf cs
              else elim c.0 as (λ _. Transfer) [
                | none ↦ broken buf c.1
                | some n ↦ read_from fuel c.1 size (drop n stream) (buf ++ take n stream)
              ])
    go later (inl done) em c k c' k' = rw done (rw (same_test done) refl)
      where
        same_test : (total == size) ≡ true → (length buf == size) ≡ true
        same_test h = ap (λ j. j == size) (sym e) ∙ h
    go later (inr more) (inl em) c k c' k' = rw more (rw (same_test more) (rw em refl))
      where
        same_test : (total == size) ≡ false → (length buf == size) ≡ false
        same_test h = ap (λ j. j == size) (sym e) ∙ h
    go later (inr more) (inr some_left) c k c' k' =
        let test : (length buf == size) ≡ false = ap (λ j. j == size) (sym e) ∙ more in
        rw more (rw test (rw some_left (ap callback (k' ∙ k) ∙ same later c k)))
      where
        callback : Option ℕ × Choices → Transfer
        callback c = elim c.0 as (λ _. Transfer) [
          | none ↦ broken buf c.1
          | some n ↦ run_reads fuel c.1 (record {
            buf = buf ++ take n stream;
            total_bytes_read = total + n;
            buf_size = size;
            stream = drop n stream;
            is_reading = not (total + n == size);
          })
        ]

        wanted : 0 < smaller (size - length buf) (length stream)
        wanted =
            smaller_positive (size - length buf) (length stream) (ground (arith, more, l, e))
              (is_empty-length stream some_left)

        same :
            ((cs : Choices) (size : ℕ) (stream buf : Text) (total : ℕ)
              → length buf ≤ size
              → total ≡ length buf
              → run_reads fuel cs (record {
                buf = buf;
                total_bytes_read = total;
                buf_size = size;
                stream = stream;
                is_reading = not (total == size);
              })
                ≡ read_from fuel cs size stream buf)
            → (c : Option ℕ × Choices)
            → next_amount cs (smaller (size - length buf) (length stream)) ≡ c
            → callback c ≡ elim c.0 as (λ _. Transfer) [
              | none ↦ broken buf c.1
              | some n ↦ read_from fuel c.1 size (drop n stream) (buf ++ take n stream)
            ]
        same later (none, rest) k = refl
        same later (some n, rest) k =
            let (lo, hi) = next_amount-bounds cs _ n wanted (ap (λ c. c.0) k) in
            let (fits, there) = smaller_bounds (size - length buf) (length stream) n hi in
            later rest size (drop n stream) (buf ++ take n stream) (total + n)
              (omega
                (arith, fits, l, length-append buf (take n stream), length-take n stream there))
              (ap (λ j. j + n) e
                ∙ sym (
                    length-append buf (take n stream)
                    ∙ ap (λ j. length buf + j) (length-take n stream there)))

-- However the socket gives the bytes, the loop of read.cpp and the callbacks of async_read_some.cpp end
-- within eight rounds: with exactly the first seven bytes that the peer sends, in order; or, where a
-- call has failed or the peer sends fewer and closes, with an error.
pub reads-Gets :
    (cs : Choices) (stream : Text)
    → Gets cs 7 stream [] (read_from_socket cs stream)
      × Gets cs 7 stream [] (run_reads 8 cs (start_read 7 stream))
unfolding read_from_socket nat_eq
reads-Gets cs stream =
    let got : Gets cs 7 stream [] (read_from_socket cs stream) =
      read_from-Gets 8 cs 7 stream [] (omega arith) (omega arith) in
    (
      got,
      subst (Gets cs 7 stream []) (sym (run_reads-loop 8 cs 7 stream [] 0 (omega arith) refl)) got,
    )
