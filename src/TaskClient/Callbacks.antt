-- ===== src/TaskClient/Callbacks.antt =====
-- The calls of the callback in boost_Practice/03_Client_Application/AsyncTCPClient.cpp.

use socket_communication.TaskClient.{
  Code, Stage, Session, Callback, TaskClient, Event, new_client, keep, emulate_long_computation_op,
  final_code, on_request_complete, go_on, on_complete, mark_cancelled, cancel_request,
  complete_found, on_event, run_client, operation_aborted, connecting, writing, reading, completed,
  issues, cancels, completes,
}
use socket_communication.Common.{
  if◌then◌else◌, ◌==◌, nat_eq, int_eq, bytes_eq, string_eq, All, lookup, insert, lookup-insert, ℕ,
  ◌≡◌, refl, sym, ap, subst, ◌∙◌, ◌⊎◌, inl, inr, Bool, true, false, Option, none, some, List, [],
  ◌∷◌, ◌++◌, arith,
}
use socket_communication.Db.{Text, room_status_eq, game_status_eq}

-- A request whose connection succeeds is reported as a success with an empty answer, unless it was
-- cancelled, and is never written: the test of the error code is the wrong way round.
pub connected_not_sent :
    (n : ℕ) (o : Session) (line : Text) (c : TaskClient)
    → lookup n c.sessions ≡ some o
    → o.stage ≡ connecting
    → o.was_cancelled ≡ false
    → ((on_event (completes n none line) c).calls
        ≡ c.calls
          ++ record { number = n; request_id = o.id; response = o.response; ec = none } ∷ [])
      × ((on_event (completes n none line) c).sent ≡ c.sent)
unfolding on_event on_complete on_request_complete
connected_not_sent n o line c found stage not_cancelled =
    subst Shown
      (sym (
        ap (λ r. complete_found r n none line c) found
        ∙ ap (λ s. on_complete n o s none line c) stage))
      (
        ap
            (λ b.
              c.calls
              ++ record {
                number = n;
                request_id = o.id;
                response = o.response;
                ec = if b then some operation_aborted else none;
              }
                ∷ [])
            not_cancelled,
        refl,
      )
  where
    Shown : TaskClient → Type 0
    Shown d =
        (d.calls
          ≡ c.calls
            ++ record { number = n; request_id = o.id; response = o.response; ec = none } ∷ [])
        × (d.sent ≡ c.sent)

-- A callback that reports no error of the connection.
abbrev pub IsNoError : Callback → Type 0
IsNoError k = (k.ec ≡ none) ⊎ (k.ec ≡ some operation_aborted)

-- No session has stored an error, and none was reported.
record IsSilent (c : TaskClient) : Type 0 where
  pub stored : (n : ℕ) (o : Session) → lookup n c.sessions ≡ some o → o.ec ≡ none
  pub reported : All IsNoError c.calls

stored-insert :
    (k : ℕ) (p : Session) (m : List (ℕ × Session))
    → ((n : ℕ) (o : Session) → lookup n m ≡ some o → o.ec ≡ none)
    → p.ec ≡ none
    → (n : ℕ) (o : Session) → lookup n (insert k p m) ≡ some o
    → o.ec ≡ none
stored-insert k p m h e n o found = go (k == n) (sym (lookup-insert k n p m) ∙ found)
  where
    go : (b : Bool) → (if b then some p else lookup n m) ≡ some o → o.ec ≡ none
    go true same = let is : p ≡ o = cc in subst (λ q. q.ec ≡ none) is e
    go false there = h n o there

All-snoc {ℓ} :
    {A : Type ℓ} (P : A → Type 0) (xs : List A) (x : A) → All P xs → P x → All P (xs ++ x ∷ [])
All-snoc P [] x h p = (p, tt)
All-snoc P (y ∷ xs) x h p = (h.0, All-snoc P xs x h.1 p)

module _ (n : ℕ) (c : TaskClient) (i : IsSilent c) where
  complete-IsSilent : (o : Session) → o.ec ≡ none → IsSilent (on_request_complete n o c)
  unfolding on_request_complete
  complete-IsSilent o e = record {
    stored = stored-insert n (record o { stage = completed }) c.sessions i.stored e;
    reported =
        All-snoc IsNoError c.calls
          (record { number = n; request_id = o.id; response = o.response; ec = final_code o })
          i.reported (subst Fine (sym e) (aborted_or_none o.was_cancelled));
  }
    where
      Fine : Option Code → Type 0
      Fine r =
          let code : Option Code = elim r [
            | none ↦ if o.was_cancelled then some operation_aborted else none
            | some x ↦ some x
          ] in
          (code ≡ none) ⊎ (code ≡ some operation_aborted)

      aborted_or_none :
          (b : Bool)
          → ((if b then some operation_aborted else none) ≡ none)
            ⊎ ((if b then some operation_aborted else none) ≡ some operation_aborted)
      aborted_or_none true = inr refl
      aborted_or_none false = inl refl

  kept-IsSilent : (o : Session) → o.ec ≡ none → IsSilent (keep n o c)
  kept-IsSilent o e = record {
    stored = stored-insert n o c.sessions i.stored e;
    reported = i.reported;
  }

  go_on-IsSilent :
      (o : Session) (ec : Option Code) (next : TaskClient)
      → o.ec ≡ none
      → IsSilent next
      → IsSilent (go_on n o ec next c)
  go_on-IsSilent o none next e s = complete-IsSilent (record o { ec = none }) refl
  go_on-IsSilent o (some x) next e s = chosen o.was_cancelled
    where
      chosen : (b : Bool) → IsSilent (if b then on_request_complete n o c else next)
      chosen true = complete-IsSilent o e
      chosen false = s

  on_complete-IsSilent :
      (o : Session) (stage : Stage) (ec : Option Code) (line : Text)
      → o.ec ≡ none
      → IsSilent (on_complete n o stage ec line c)
  unfolding on_complete
  on_complete-IsSilent o connecting ec line e = go_on-IsSilent o ec _ e (
      let s = kept-IsSilent (record o { stage = writing }) e in
      record { stored = s.stored; reported = s.reported })
  on_complete-IsSilent o writing ec line e =
      go_on-IsSilent o ec _ e (kept-IsSilent (record o { stage = reading }) e)
  on_complete-IsSilent o reading none line e = complete-IsSilent (record o { ec = none }) refl
  on_complete-IsSilent o reading (some x) line e =
      complete-IsSilent (record o { response = line }) e
  on_complete-IsSilent o completed ec line e = i

  found-IsSilent :
      (r : Option Session) (ec : Option Code) (line : Text)
      → lookup n c.sessions ≡ r
      → IsSilent (complete_found r n ec line c)
  found-IsSilent none ec line found = i
  found-IsSilent (some o) ec line found =
      on_complete-IsSilent o o.stage ec line (i.stored n o found)

  marked-IsSilent : (r : Option Session) → lookup n c.sessions ≡ r → IsSilent (mark_cancelled r n c)
  marked-IsSilent none found = i
  marked-IsSilent (some o) found =
      kept-IsSilent (record o { was_cancelled = true }) (i.stored n o found)

on_event-IsSilent : (e : Event) (c : TaskClient) → IsSilent c → IsSilent (on_event e c)
unfolding on_event emulate_long_computation_op cancel_request
on_event-IsSilent (issues duration request_id) c i = record {
  stored = stored-insert c.next_session _ c.sessions i.stored refl;
  reported = i.reported;
}
on_event-IsSilent (cancels request_id) c i = go (lookup request_id c.active_sessions)
  where
    go :
        (r : Option ℕ)
        → IsSilent (elim r as (λ _. TaskClient) [
          | none ↦ c
          | some n ↦ mark_cancelled (lookup n c.sessions) n c
        ])
    go none = i
    go (some n) = marked-IsSilent n c i (lookup n c.sessions) refl
on_event-IsSilent (completes n ec line) c i =
    found-IsSilent n c i (lookup n c.sessions) ec line refl

run_client-IsSilent : (es : List Event) (c : TaskClient) → IsSilent c → IsSilent (run_client es c)
unfolding run_client
run_client-IsSilent [] c i = i
run_client-IsSilent (e ∷ es) c i = run_client-IsSilent es (on_event e c) (on_event-IsSilent e c i)

-- Whatever fails on whichever connection, and in whatever order requests are sent, cancelled and
-- completed, every callback reports success or a cancelled request: no error of a connection is ever
-- reported.
pub errors_never_reported : (es : List Event) → All IsNoError (run_client es new_client).calls
unfolding lookup
errors_never_reported es =
    (run_client-IsSilent es new_client
      (record { stored = λ n o found. absurd (ground (arith, found)); reported = tt })).reported
