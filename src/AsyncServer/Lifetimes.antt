-- ===== src/AsyncServer/Lifetimes.antt =====
-- The lifetimes of the services of boost_Practice/04_Server_Application/AsyncTCPServer.cpp.

use socket_communication.Common.{
  if◌then◌else◌, ◌==◌, nat_eq, int_eq, bytes_eq, string_eq, length, lookup, insert, lookup-insert,
  ℕ, zero, suc, ◌-◌, ◌≡◌, refl, sym, ap, subst, ◌∙◌, Bool, true, false, ◌&&◌, Option, none, some,
  List, [], ◌∷◌, ◌++◌, arith,
}
use socket_communication.Db.{room_status_eq, game_status_eq}
use socket_communication.GameSocket.Pool.{at, set_at}
use socket_communication.AsyncServer.{
  Operation, Object, AsyncServer, Event, adopt, release, call_member, accept_service,
  service_answer, on_request_received, on_response_sent, start_server, on_accept,
  complete_operation, on_completed, on_event, run_server, no_operation, reads_request,
  sends_response, accepted, finishes, closes_acceptor, stops_context,
}

-- The pending handler holds the only pointer of its control block.
unfoldable pub HoldsBlock : Operation → List ℕ → Type 0
HoldsBlock no_operation bs = Unit {0}
HoldsBlock (reads_request k) bs = at k bs ≡ some 1
HoldsBlock (sends_response k) bs = at k bs ≡ some 1

-- An object that was deleted once more than handlers have run, and before each of them.
pub record IsDangling (o : Object) : Type 0 where
  pub deleted : o.deletions ≡ suc o.handler_runs
  pub ran_deleted : o.runs_deleted ≡ o.handler_runs
  pub held : HoldsBlock o.operation o.blocks

at-append : (k a c : ℕ) (xs : List ℕ) → at k xs ≡ some a → at k (xs ++ c ∷ []) ≡ some a
unfolding at
at-append k a c [] e = absurd (ground (arith, e))
at-append zero a c (x ∷ xs) e = e
at-append (suc k) a c (x ∷ xs) e = at-append k a c xs e

at-set_at :
    (k a b c : ℕ) (xs : List ℕ)
    → at k xs ≡ some a
    → at (length xs) (set_at k b (xs ++ c ∷ [])) ≡ some c
unfolding at set_at
at-set_at k a b c [] e = absurd (ground (arith, e))
at-set_at zero a b c (x ∷ xs) e = end xs
  where
    end : (xs : List ℕ) → at (length xs) (xs ++ c ∷ []) ≡ some c
    end [] = refl
    end (x ∷ xs) = end xs
at-set_at (suc k) a b c (x ∷ xs) e = at-set_at k a b c xs e

released :
    (k : ℕ) (o : Object)
    → at k o.blocks ≡ some 1
    → release k o ≡ record o { blocks = set_at k 0 o.blocks; deletions = suc o.deletions }
unfolding release nat_eq
released k o e =
    ap
      (λ r. elim r as (λ _. Object) [
        | none ↦ o
        | some n ↦ record o {
          blocks = set_at k (n - 1) o.blocks;
          deletions = if n == 1 then suc o.deletions else o.deletions;
        }
      ])
      e

accept_service-IsDangling : IsDangling accept_service
unfolding accept_service release at set_at nat_eq HoldsBlock
accept_service-IsDangling = record { deleted = refl; ran_deleted = refl; held = refl }

module _ (k : ℕ) (o : Object) (d : IsDangling o) (held : at k o.blocks ≡ some 1) where
  ran_later : (call_member o).runs_deleted ≡ suc o.runs_deleted
  ran_later = ground (arith, d.deleted)

  -- A handler that ends without another operation.
  ended-IsDangling : IsDangling (release k (record (call_member o) { operation = no_operation }))
  unfolding HoldsBlock
  ended-IsDangling =
      subst IsDangling (sym (released k (record (call_member o) { operation = no_operation }) held))
        (record {
          deleted = ap suc d.deleted;
          ran_deleted = ran_later ∙ ap suc d.ran_deleted;
          held = tt;
        })

  received-IsDangling : (fails : Bool) → IsDangling (on_request_received k fails o)
  unfolding on_request_received HoldsBlock
  received-IsDangling true = ended-IsDangling
  received-IsDangling false =
      subst IsDangling (sym (released k answering (at-append k 1 1 o.blocks held))) (record {
        deleted = ap suc d.deleted;
        ran_deleted = ran_later ∙ ap suc d.ran_deleted;
        held = at-set_at k 1 0 1 o.blocks held;
      })
    where
      answering : Object
      answering = record (adopt (call_member o)) {
        m_response = service_answer;
        operation = sends_response (length o.blocks);
      }

complete-IsDangling :
    (q : Operation) (fails : Bool) (o : Object)
    → o.operation ≡ q
    → IsDangling o
    → IsDangling (complete_operation q fails o)
unfolding complete_operation on_response_sent HoldsBlock
complete-IsDangling no_operation fails o e d = d
complete-IsDangling (reads_request k) fails o e d =
    received-IsDangling k o d (subst (λ q. HoldsBlock q o.blocks) e d.held) fails
complete-IsDangling (sends_response k) fails o e d =
    ended-IsDangling k o d (subst (λ q. HoldsBlock q o.blocks) e d.held)

-- Every service of a server is such.
abbrev AllDangling : AsyncServer → Type 0
AllDangling s = (i : ℕ) (o : Object) → lookup i s.services ≡ some o → IsDangling o

the_same : {o o' : Object} → some o ≡ some o' → o ≡ o'
the_same p = cc

inserted-AllDangling :
    (j : ℕ) (o : Object) (s : AsyncServer)
    → IsDangling o
    → AllDangling s
    → AllDangling (record s { services = insert j o s.services })
inserted-AllDangling j o s d a i o' e = go (j == i) refl
  where
    looked : (if j == i then some o else lookup i s.services) ≡ some o'
    looked = sym (lookup-insert j i o s.services) ∙ e

    go : (b : Bool) → (j == i) ≡ b → IsDangling o'
    go true h =
        let same : some o ≡ some o' = sym (rw h refl) ∙ looked in subst IsDangling (the_same same) d
    go false h =
        let there : lookup i s.services ≡ some o' = sym (rw h refl) ∙ looked in a i o' there

accept-AllDangling :
    (fails : Bool) (s : AsyncServer) → AllDangling s → AllDangling (on_accept fails s)
unfolding on_accept
accept-AllDangling true s a = again s.is_open
  where
    again :
        (b : Bool)
        → AllDangling
            (if b then record s { is_accepting = true } else record s { is_accepting = false })
    again true = a
    again false = a
accept-AllDangling false s a = again s.is_open
  where
    more : AsyncServer
    more = record s {
      is_accepting = false;
      services = insert s.next_service accept_service s.services;
      next_service = suc s.next_service;
    }

    all : AllDangling more
    all = inserted-AllDangling s.next_service accept_service s accept_service-IsDangling a

    again : (b : Bool) → AllDangling (if b then record more { is_accepting = true } else more)
    again true = all
    again false = all

completed-AllDangling :
    (i : ℕ) (fails : Bool) (s : AsyncServer) → AllDangling s → AllDangling (on_completed i fails s)
unfolding on_completed
completed-AllDangling i fails s a = go (lookup i s.services) refl
  where
    go :
        (r : Option Object)
        → lookup i s.services ≡ r
        → AllDangling (elim r as (λ _. AsyncServer) [
          | none ↦ s
          | some o ↦ record s {
            services = insert i (complete_operation o.operation fails o) s.services;
          }
        ])
    go none e = a
    go (some o) e =
        inserted-AllDangling i (complete_operation o.operation fails o) s
          (complete-IsDangling o.operation fails o refl (a i o e)) a

on_event-AllDangling : (e : Event) (s : AsyncServer) → AllDangling s → AllDangling (on_event e s)
unfolding on_event
on_event-AllDangling (accepted fails) s a = go (s.is_running && s.is_accepting)
  where
    go : (b : Bool) → AllDangling (if b then on_accept fails s else s)
    go true = accept-AllDangling fails s a
    go false = a
on_event-AllDangling (finishes i fails) s a = go s.is_running
  where
    go : (b : Bool) → AllDangling (if b then on_completed i fails s else s)
    go true = completed-AllDangling i fails s a
    go false = a
on_event-AllDangling closes_acceptor s a = a
on_event-AllDangling stops_context s a = a

run_server-AllDangling :
    (es : List Event) (s : AsyncServer) → AllDangling s → AllDangling (run_server es s)
unfolding run_server
run_server-AllDangling [] s a = a
run_server-AllDangling (e ∷ es) s a =
    run_server-AllDangling es (on_event e s) (on_event-AllDangling e s a)

none_yet : AllDangling start_server
unfolding lookup
none_yet i o e = absurd (ground (arith, e))

-- Over any run of the server, for every service that it has accepted: the object was deleted before
-- the first of its handlers ran, every handler has run on a deleted object, and with each of them the
-- object was deleted once more.
pub handlers_run_deleted :
    (es : List Event) (i : ℕ) (o : Object)
    → lookup i (run_server es start_server).services ≡ some o
    → (o.deletions ≡ suc o.handler_runs) × (o.runs_deleted ≡ o.handler_runs)
handlers_run_deleted es i o e =
    let d : IsDangling o = run_server-AllDangling es start_server none_yet i o e in
    (d.deleted, d.ran_deleted)
