-- ===== src/Sockets/Parallel.antt =====
-- boost_Practice/04_Server_Application/ParallelSyncTCPServer.cpp: the server that handles each client on a
-- detached thread. `HandleClient` is that of the iterative server; it runs on a Service that is destroyed
-- by then, of which it uses no member. The threads end with the process: where `main` returns after `Stop`,
-- and where an exception leaves the function of the thread of `Run`.

use socket_communication.Common.{
  if◌then◌else◌, nat_eq, int_eq, bytes_eq, string_eq, lookup, erase, insert, ℕ, suc, ◌≡◌, refl, ap,
  ◌∙◌, Bool, true, Option, none, some, List, [], ◌∷◌, arith,
}
use socket_communication.Sockets.Services.{
  Peer, Phase, handle_client, testing, accepting, left_loop, terminated,
}
use socket_communication.Db.{Text, room_status_eq, game_status_eq}

-- Where the thread of `Run` stands, the clients whose threads are still at work, by the numbers of their
-- threads, what each client was answered, and the next number.
pub record ParallelServer : Type 0 where
  pub m_stop : Bool
  pub phase : Phase
  pub handling : List (ℕ × Peer)
  pub answers : List (ℕ × Option Text)
  pub next_thread : ℕ

-- The call of `Stop` in `main`, a test of the loop, the end of an `accept`, the end of a client's thread,
-- and the return of `Stop` and with it of `main`.
pub data Event : Type 0 where
  stops tests accept_fails returns : Event
  connects : Peer → Event
  finishes : ℕ → Event

-- `StartHandlingClient` at the end of `Accept`.
abbrev pub start_handling_client : Peer → ParallelServer → ParallelServer
start_handling_client p s = record s {
  phase = testing;
  handling = insert s.next_thread p s.handling;
  next_thread = suc s.next_thread;
}

-- The process is over, and with it the threads of the clients.
abbrev pub end_process : ParallelServer → ParallelServer
end_process s = record s { phase = terminated; handling = [] }

-- `Stop` joins the thread of `Run`, which is behind its loop then.
abbrev pub in_run : Phase → Event → ParallelServer → ParallelServer
in_run testing tests s = record s { phase = if s.m_stop then left_loop else accepting }
in_run accepting (connects p) s = start_handling_client p s
in_run accepting accept_fails s = end_process s
in_run left_loop returns s = end_process s
in_run _ _ s = s

unfoldable pub finish_thread : ℕ → ParallelServer → ParallelServer
unfolding handle_client
finish_thread n s = elim (lookup n s.handling) [
  | none ↦ s
  | some p ↦ record s {
    handling = erase n s.handling;
    answers = insert n (handle_client p.pieces p.takes) s.answers;
  }
]

unfoldable pub on_event : Event → ParallelServer → ParallelServer
unfolding finish_thread
on_event stops s = record s { m_stop = true }
on_event tests s = in_run s.phase tests s
on_event accept_fails s = in_run s.phase accept_fails s
on_event returns s = in_run s.phase returns s
on_event (connects p) s = in_run s.phase (connects p) s
on_event (finishes n) s = finish_thread n s

unfoldable pub run_server : List Event → ParallelServer → ParallelServer
unfolding on_event
run_server [] s = s
run_server (e ∷ es) s = run_server es (on_event e s)

-- Where the process is over, no thread is at work.
abbrev pub IsOver : ParallelServer → Type 0
IsOver s = (s.phase ≡ terminated) × (s.handling ≡ [])

no_thread-finish : (n : ℕ) (s : ParallelServer) → s.handling ≡ [] → finish_thread n s ≡ s
unfolding finish_thread lookup
no_thread-finish n s h = ground (arith, ap (lookup n) h)

IsOver-event :
    (e : Event) (s : ParallelServer)
    → IsOver s
    → IsOver (on_event e s) × ((on_event e s).answers ≡ s.answers)
unfolding on_event finish_thread lookup
IsOver-event stops s h = (h, refl)
IsOver-event tests s (p, h) = rw (ap (λ f. in_run f tests s) p) ((p, h), refl)
IsOver-event accept_fails s (p, h) = rw (ap (λ f. in_run f accept_fails s) p) ((p, h), refl)
IsOver-event returns s (p, h) = rw (ap (λ f. in_run f returns s) p) ((p, h), refl)
IsOver-event (connects q) s (p, h) = rw (ap (λ f. in_run f (connects q) s) p) ((p, h), refl)
IsOver-event (finishes n) s (p, h) = rw (no_thread-finish n s h) ((p, h), refl)

-- After `main` has returned, no client is answered any more, also none whose thread was at work then.
pub returned_answers :
    (es : List Event) (s : ParallelServer)
    → s.phase ≡ left_loop
    → (run_server es (on_event returns s)).answers ≡ s.answers
unfolding run_server on_event
returned_answers es s h = rw (ap (λ f. in_run f returns s) h) (over es (end_process s) (refl, refl))
  where
    over : (es : List Event) (s : ParallelServer) → IsOver s → (run_server es s).answers ≡ s.answers
    over [] s o = refl
    over (e ∷ es) s o = let (o', same) = IsOver-event e s o in over es (on_event e s) o' ∙ same
