-- ===== src/Sockets/Exchange.antt =====
-- SyncTCPClient.cpp of boost_Practice/03_Client_Application against the servers of
-- boost_Practice/04_Server_Application.

use mathlib.Core.List.{append-nil, append_assoc}
use socket_communication.Common.{
  if◌then◌else◌, ◌==◌, nat_eq, int_eq, bytes_eq, string_eq, Bool-cases, bytes_of, to_string, ℕ,
  zero, suc, ◌+◌, ◌≡◌, refl, sym, ap, subst, ◌∙◌, ◌⊎◌, inl, inr, Bool, true, false, Option, none,
  some, List, [], ◌∷◌, ◌++◌, arith,
}
use socket_communication.Db.{Text, room_status_eq, game_status_eq}
use socket_communication.ChatServer.{take_line}
use socket_communication.Sockets.Services.{
  has_line, read_until, work_loop, server_response, handle_client, tcp_request, first_line,
  receive_response,
}

unfoldable pub joined : List Text → Text
joined [] = []
joined (p ∷ ps) = p ++ joined ps

abbrev Line : Text → Type 0
Line t = (p : Text × Text) × (take_line t ≡ some p)

newline_there : (t u : Text) → Line (t ++ b'\n' ∷ u)
unfolding take_line nat_eq
newline_there [] u = (([], u), refl)
newline_there (b ∷ t) u =
    let (p, e) = newline_there t u in
    elim (Bool-cases (b == b'\n')) [
      | inl h ↦ (([], t ++ b'\n' ∷ u), rw h refl)
      | inr h ↦ ((b ∷ p.0, p.1), rw (h, e) refl)
    ]

no_line : {p : Text × Text} → none ≡ some p → ⊥
no_line e = cc

-- A line that a text has is a line of every text that goes on from it.
take_line-append :
    (t u : Text) (p : Text × Text)
    → take_line t ≡ some p
    → take_line (t ++ u) ≡ some (p.0, p.1 ++ u)
unfolding take_line
take_line-append [] u p e = absurd (ground (arith, e))
take_line-append (b ∷ t) u p e =
    go (take_line-append t u) (Bool-cases (b == b'\n')) (take_line t) refl
  where
    longer : Option (Text × Text) → Option (Text × Text)
    longer none = none
    longer (some q) = some (q.0, q.1 ++ u)

    go :
        ((p : Text × Text) → take_line t ≡ some p → take_line (t ++ u) ≡ some (p.0, p.1 ++ u))
        → ((b == b'\n') ≡ true) ⊎ ((b == b'\n') ≡ false)
        → (o : Option (Text × Text)) → take_line t ≡ o
        → take_line (b ∷ (t ++ u)) ≡ some (p.0, p.1 ++ u)
    go later (inl h) o k =
        let one : some ([], t) ≡ some p = sym (rw h refl) ∙ e in rw h (ap longer one)
    go later (inr h) none k =
        let nothing : none ≡ some p = sym (rw (h, k) refl) ∙ e in absurd (no_line nothing)
    go later (inr h) (some q) k =
        let one : some (b ∷ q.0, q.1) ≡ some p = sym (rw (h, k) refl) ∙ e in
        rw (h, later q k) (ap longer one)

worked : (k i limit : ℕ) → i + k ≡ limit → work_loop (suc k) limit i ≡ some limit
unfolding work_loop
worked zero i limit e = ground (arith, e)
worked (suc k) i limit e =
    let later : work_loop (suc k) limit (suc i) ≡ some limit =
      worked k (suc i) limit (omega (arith, e)) in
    ground (arith, e, later)

-- What `read_until` ends with: a text that has a line, and a beginning of all that is sent.
record Reads (all : Text) (o : Option Text) : Type 0 where
  pub text : Text
  pub is_read : o ≡ some text
  pub line : Line text
  pub rest : Text
  pub begins : text ++ rest ≡ all

is_there : (t : Text) (p : Text × Text) → take_line t ≡ some p → has_line t ≡ true
unfolding has_line
is_there t p e = ap (λ o. elim o as (λ _. Bool) [ none ↦ false | some p ↦ true ]) e

newline_absent : (t : Text) → take_line t ≡ none → has_line t ≡ false
unfolding has_line
newline_absent t e = ap (λ o. elim o as (λ _. Bool) [ none ↦ false | some p ↦ true ]) e

read_until-Reads :
    (ps : List Text) (buf all : Text)
    → buf ++ joined ps ≡ all
    → Line all
    → Reads all (read_until ps buf)
unfolding read_until joined
read_until-Reads [] buf all e (p, l) =
    let whole : buf ≡ all = sym (append-nil buf) ∙ e in
    let there : take_line buf ≡ some p = ap take_line whole ∙ l in
    record {
      text = buf;
      is_read = ap (λ b. if b then some buf else none) (is_there buf p there);
      line = (p, there);
      rest = [];
      begins = e;
    }
read_until-Reads (q ∷ ps) buf all e l =
    go (read_until-Reads ps (buf ++ q) all (append_assoc buf q (joined ps) ∙ e) l) (take_line buf)
      refl
  where
    go :
        Reads all (read_until ps (buf ++ q))
        → (o : Option (Text × Text)) → take_line buf ≡ o
        → Reads all (read_until (q ∷ ps) buf)
    go later none k = record {
      text = later.text;
      is_read =
          ap (λ b. if b then some buf else read_until ps (buf ++ q)) (newline_absent buf k)
          ∙ later.is_read;
      line = later.line;
      rest = later.rest;
      begins = later.begins;
    }
    go later (some p) k = record {
      text = buf;
      is_read = ap (λ b. if b then some buf else read_until ps (buf ++ q)) (is_there buf p k);
      line = (p, k);
      rest = q ++ joined ps;
      begins = e;
    }

module _ (ps qs : List Text) (duration : ℕ) (sent : joined ps ≡ tcp_request duration)
    (answered : joined qs ≡ server_response) where
  request_read : Reads (tcp_request duration) (read_until ps [])
  unfolding tcp_request
  request_read = read_until-Reads ps [] (tcp_request duration) sent (
      subst Line (append_assoc (bytes_of "EMULATE_LONG_COMP_OP ") (to_string duration) (b'\n' ∷ []))
        (newline_there (bytes_of "EMULATE_LONG_COMP_OP " ++ to_string duration) []))

  response_read : Reads server_response (read_until qs [])
  response_read =
      read_until-Reads qs [] server_response answered (newline_there (bytes_of "Response") [])

  served : handle_client ps true ≡ some server_response
  unfolding handle_client
  served =
      ap
        (λ o. elim o as (λ _. Option Text) [
          | none ↦ none
          | some request ↦ elim (work_loop (suc 1000000) 1000000 0) as (λ _. Option Text) [
            | none ↦ none
            | some i ↦ some server_response
          ]
        ])
        request_read.is_read
      ∙ ap (λ o. elim o as (λ _. Option Text) [ none ↦ none | some i ↦ some server_response ])
          (worked 1000000 0 1000000 (omega arith))

  whole : take_line server_response ≡ some (bytes_of "Response", [])
  unfolding take_line nat_eq
  whole = refl

  got : receive_response qs ≡ some (bytes_of "Response")
  unfolding receive_response
  got =
      ap (λ o. elim o as (λ _. Option Text) [ none ↦ none | some t ↦ some (first_line t) ])
        response_read.is_read
      ∙ ap some (line_of response_read)
    where
      line_in : Option (Text × Text) → Text → Text
      line_in o t = elim o as (λ _. Text) [ none ↦ t | some p ↦ p.0 ]

      line_of :
          (r : Reads server_response (read_until qs [])) → first_line r.text ≡ bytes_of "Response"
      line_of r =
          let (p, e) = r.line in
          ap (λ o. line_in o r.text) (e)
          ∙ ap (λ o. line_in o r.text)
              (sym (take_line-append r.text r.rest p e) ∙ ap take_line r.begins ∙ whole)

  -- In whatever pieces the two streams come, where a server's thread can write its answer, a client of
  -- SyncTCPClient.cpp and a server of IterativeSyncTCPServer.cpp understand each other: from the pieces
  -- of a request the server reads it, its work loop ends, and it writes "Response" and a line feed; from
  -- the pieces of that the client takes "Response".
  pub exchange_answers :
      (handle_client ps true ≡ some server_response)
      × (receive_response qs ≡ some (bytes_of "Response"))
  exchange_answers = (served, got)
