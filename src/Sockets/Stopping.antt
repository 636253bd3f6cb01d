-- ===== src/Sockets/Stopping.antt =====
-- `Stop` of the servers of boost_Practice/04_Server_Application, which joins the thread of `Run`.

use socket_communication.Common.{All, ◌≡◌, ap, ◌∙◌, Bool, true, false, List, [], ◌∷◌, ◌++◌, arith}
use socket_communication.Sockets.Services.{
  Peer, SyncServer, Event, handle_client, test_stop, accept_client, at_phase, on_event, run_server,
  accepting, left_loop, stops, tests, accept_fails, connects,
}

-- Another thread's call of `Stop`, or a test of the loop: no client comes and no accept fails.
unfoldable pub is_quiet : Event → Bool
is_quiet stops = true
is_quiet tests = true
is_quiet accept_fails = false
is_quiet (connects p) = false

abbrev pub AllQuiet : List Event → Type 0
AllQuiet = All (λ e. is_quiet e ≡ true)

quiet-accepting :
    (es : List Event) (s : SyncServer)
    → AllQuiet es
    → s.phase ≡ accepting
    → (run_server es s).phase ≡ accepting
unfolding run_server on_event is_quiet
quiet-accepting [] s q a = a
quiet-accepting (e ∷ es) s (q, qs) a = quiet-accepting es (on_event e s) qs (one e q)
  where
    one : (e : Event) → is_quiet e ≡ true → (on_event e s).phase ≡ accepting
    one stops h = a
    one tests h = ap (λ f. (at_phase f tests s).phase) a ∙ a
    one accept_fails h = absurd (ground (arith, h))
    one (connects p) h = absurd (ground (arith, h))

-- A server that waits in `accept` does not notice `Stop`: however often it is called, the thread waits
-- there, and so does `Stop`, as long as no client comes and `accept` does not fail. Where it was called,
-- the next client is served still, and then the loop ends.
pub stop_waits :
    (es : List Event) (s : SyncServer) (p : Peer)
    → AllQuiet es
    → s.phase ≡ accepting
    → ((run_server es s).phase ≡ accepting)
      × (run_server (stops ∷ connects p ∷ tests ∷ []) (run_server es s) ≡ record (run_server es s) {
        m_stop = true;
        phase = left_loop;
        answers = (run_server es s).answers ++ handle_client p.pieces p.takes ∷ [];
      })
unfolding run_server on_event accept_client test_stop
stop_waits es s p q a =
    let still : (run_server es s).phase ≡ accepting = quiet-accepting es s q a in
    (
      still,
      ap (on_event tests)
          (ap (λ f. at_phase f (connects p) (record (run_server es s) { m_stop = true })) still),
    )
