-- ===== src/Sessions/Lifecycle/Order.antt =====
-- MatchingServer/src/core/server.cpp: starting, accepting and stopping keep the timers in order.

use socket_communication.Common.{
  if◌then◌else◌, Ran, ◌>>◌, Ends, Ends-bind, ran, ℕ, ◌≡◌, refl, sym, subst, ◌∙◌, ◌⊎◌, inl, inr,
  Bool, true, false, not, none, some, [],
}
use socket_communication.Sessions.{Handler, on_server}
use socket_communication.Sessions.Lifecycle.{
  Process, on_world, check_sessions, start_session_timeout_check, broadcast_interval,
  schedule_broadcast, start_broadcast_timer, do_accept, run, stop_each, end_sessions, stop,
}
use socket_communication.Sessions.Lifecycle.Returns.{
  on_world-Ends, stop_each-Returns, checks-Ends, schedule-Ends,
}

-- A server that runs has both timers armed and an accept pending.
pub record IsRunning (p : Process) : Type 0 where
  pub runs : p.running ≡ true
  pub checks : p.timeout_check_running ≡ true
  pub broadcasts : p.broadcast_running ≡ true
  pub check_armed : p.check_timer ≡ some 10
  pub broadcast_armed : p.broadcast_timer ≡ some broadcast_interval
  pub accepting : p.is_accepting ≡ true

-- One that does not run has no timer armed.
pub record IsStopped (p : Process) : Type 0 where
  pub stopped : p.running ≡ false
  pub no_check : p.check_timer ≡ none
  pub no_broadcast : p.broadcast_timer ≡ none

abbrev pub IsOrderly : Process → Type 0
IsOrderly p = IsRunning p ⊎ IsStopped p

-- A run that leaves an orderly server.
abbrev pub Orderly : Ran Process (Unit {0}) → Type 0
Orderly = Ends (λ _ p. IsOrderly p) (λ _. ⊥)

end_sessions-IsStopped : (p : Process) → IsStopped p → Orderly (end_sessions p)
unfolding end_sessions
end_sessions-IsStopped p s =
    let clear : Handler = on_server (λ w. record w { sessions = [] }) in
    let each : Handler = stop_each p.world.server.sessions in
    Ends-bind (λ _ p'. IsStopped p') (λ _. ⊥) (λ _ p'. IsOrderly p') (on_world (each >> clear)) _ p
      (on_world-Ends IsStopped (each >> clear) p
        (Ends-bind (λ _ _. Unit {0}) (λ _. ⊥) (λ _ _. Unit {0}) each (λ _. clear) p.world
          (stop_each-Returns p.world.server.sessions p.world) (λ u w h. tt))
        (λ w. record { stopped = s.stopped; no_check = s.no_check; no_broadcast = s.no_broadcast }))
      (λ u p' h.
        inr (record { stopped = h.stopped; no_check = h.no_check; no_broadcast = h.no_broadcast }))

pub stop-Orderly : (p : Process) → IsOrderly p → Orderly (stop p)
unfolding stop
stop-Orderly p o = go p.running refl
  where
    cancelled : Process
    cancelled = record p {
      running = false;
      timeout_check_running = false;
      broadcast_running = false;
      check_timer = none;
      broadcast_timer = none;
    }

    go : (b : Bool) → p.running ≡ b → Orderly (if not b then ran tt p else end_sessions cancelled)
    go true e =
        end_sessions-IsStopped cancelled
          (record { stopped = refl; no_check = refl; no_broadcast = refl })
    go false e = o

-- What `run` has reached before it starts the broadcasts.
record IsChecking (p : Process) : Type 0 where
  pub runs : p.running ≡ true
  pub checks : p.timeout_check_running ≡ true
  pub silent : p.broadcast_running ≡ false
  pub check_armed : p.check_timer ≡ some 10
  pub accepting : p.is_accepting ≡ true

pub run-Orderly :
    (now : ℕ) (p : Process)
    → p.timeout_check_running ≡ false
    → p.broadcast_running ≡ false
    → Orderly (run now p)
unfolding run start_session_timeout_check start_broadcast_timer
run-Orderly now p c b =
    Ends-bind (λ _ p'. IsChecking p') (λ _. ⊥) (λ _ p'. IsOrderly p')
      (start_session_timeout_check now) (λ _. start_broadcast_timer) started
      (subst
        (λ f.
          Ends (λ _ p'. IsChecking p') (λ _. ⊥)
            (if f
              then ran tt started
              else check_sessions now (record started { timeout_check_running = true })))
        (sym c)
        (checks-Ends IsChecking (record started { timeout_check_running = true }) now refl refl
          (λ w. record {
            runs = refl;
            checks = refl;
            silent = b;
            check_armed = refl;
            accepting = refl;
          })))
      (λ u p' h.
        subst
          (λ f.
            Orderly (
              if f then ran tt p' else schedule_broadcast (record p' { broadcast_running = true })))
          (sym h.silent)
          (schedule-Ends IsOrderly (record p' { broadcast_running = true }) h.runs refl
            (inl (record {
              runs = h.runs;
              checks = h.checks;
              broadcasts = refl;
              check_armed = h.check_armed;
              broadcast_armed = refl;
              accepting = h.accepting;
            }))))
  where
    started : Process
    started = do_accept (record p { running = true })

pub accept-IsOrderly :
    (p : Process)
    → IsOrderly p
    → (s : Process) → s.running ≡ p.running
    → s.timeout_check_running ≡ p.timeout_check_running
    → s.broadcast_running ≡ p.broadcast_running
    → s.check_timer ≡ p.check_timer
    → s.broadcast_timer ≡ p.broadcast_timer
    → IsOrderly (if s.running then do_accept s else s)
accept-IsOrderly p (inl h) s r c b k l =
    subst (λ f. IsOrderly (if f then do_accept s else s)) (sym (r ∙ h.runs))
      (inl (record {
        runs = r ∙ h.runs;
        checks = c ∙ h.checks;
        broadcasts = b ∙ h.broadcasts;
        check_armed = k ∙ h.check_armed;
        broadcast_armed = l ∙ h.broadcast_armed;
        accepting = refl;
      }))
accept-IsOrderly p (inr h) s r c b k l =
    subst (λ f. IsOrderly (if f then do_accept s else s)) (sym (r ∙ h.stopped))
      (inr (record {
        stopped = r ∙ h.stopped;
        no_check = k ∙ h.no_check;
        no_broadcast = l ∙ h.no_broadcast;
      }))
