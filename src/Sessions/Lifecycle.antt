-- ===== src/Sessions/Lifecycle.antt =====
-- MatchingServer/src/core/server.cpp: running, accepting, the two timers and stopping. The I/O library
-- calls the handler of a timer that is armed and of an accept that is pending; arming a timer again
-- replaces its wait. Closing the acceptor and cancelling a timer end their waits without a new one.

pub mod Returns
pub mod Order
pub mod Orderly
use socket_communication.Common.{
  if◌then◌else◌, Action, ◌>>=◌, ◌>>◌, pure, catching, ran, threw, ℕ, suc, String, Bool, true, false,
  not, ◌||◌, Option, none, some, List, [], ◌∷◌,
}
use socket_communication.Db.{Tables, Text}
use socket_communication.DbPool.{Link, new_pool}
use socket_communication.Server.{Session, Server, zero_id, lock, unset}
use socket_communication.Sessions.{World, Handler, on_server, handle_error}
use socket_communication.Sessions.Handshake.{check_inactive_sessions}
use socket_communication.Sessions.Broadcasts.{broadcast_ccu}

-- A server, its flags, the seconds that each timer is armed for, whether an accept is pending and the
-- acceptor is open, and the number of the next session object.
pub record Process : Type 0 where
  pub world : World
  pub running : Bool
  pub timeout_check_running : Bool
  pub broadcast_running : Bool
  pub check_timer : Option ℕ
  pub broadcast_timer : Option ℕ
  pub is_accepting : Bool
  pub is_open : Bool
  pub next_object : ℕ

abbrev pub Signalled : Type 0
Signalled = Action Process (Unit {0})

abbrev pub on_world : Handler → Signalled
on_world m p = elim (m p.world) [
  | ran u w ↦ ran tt (record p { world = w })
  | threw w ↦ threw (record p { world = w })
]

abbrev pub change : (Process → Process) → Signalled
change f p = ran tt (f p)

-- `check_inactive_sessions` with its guard and its timer.
unfoldable pub check_sessions : ℕ → Signalled
check_sessions now p =
    if not p.running || not p.timeout_check_running
    then ran tt p
    else (on_world (check_inactive_sessions now)
          >> change (λ p. record p { check_timer = some 10 }))
        p

unfoldable pub start_session_timeout_check : ℕ → Signalled
unfolding check_sessions
start_session_timeout_check now p =
    if p.timeout_check_running
    then ran tt p
    else check_sessions now (record p { timeout_check_running = true })

abbrev pub broadcast_interval : ℕ
broadcast_interval = 3

unfoldable pub schedule_broadcast : Signalled
schedule_broadcast p =
    if not p.running || not p.broadcast_running
    then ran tt p
    else ran tt (record p { broadcast_timer = some broadcast_interval })

unfoldable pub start_broadcast_timer : Signalled
unfolding schedule_broadcast
start_broadcast_timer p =
    if p.broadcast_running
    then ran tt p
    else schedule_broadcast (record p { broadcast_running = true })

abbrev pub set_session_timeout : ℕ → Server → Server
set_session_timeout timeout w = record w { session_timeout = timeout }

-- `do_accept` where the acceptor is open.
abbrev pub do_accept : Process → Process
do_accept p = record p { is_accepting = true }

-- The constructors of Server; no session, a pool of 20 connections, a timeout of 12 seconds.
unfoldable pub new_server : String → Server
new_server version = record {
  objects = [];
  sessions = [];
  tokens = [];
  mirrors = [];
  connected_ips = [];
  next_token = 0;
  session_timeout = 12;
  version = version;
}

unfoldable pub new_process : String → Tables → Link → Process
unfolding new_server new_pool
new_process version t l = record {
  world = record {
    server = new_server version;
    db = record { committed = t; faults = []; pool = new_pool 20; link = l };
    sent = [];
  };
  running = false;
  timeout_check_running = false;
  broadcast_running = false;
  check_timer = none;
  broadcast_timer = none;
  is_accepting = false;
  is_open = true;
  next_object = 0;
}

-- `run`, at a time.
unfoldable pub run : ℕ → Signalled
unfolding start_session_timeout_check start_broadcast_timer
run now = do
  change (λ p. do_accept (record p { running = true }))
  start_session_timeout_check now
  start_broadcast_timer

-- The constructor of Session, for a socket from an address. It leaves `mirror_port_` without a value,
-- for which 0 stands.
abbrev pub new_session : ℕ → Text → Session
new_session now ip = record {
  user_id = zero_id;
  user_name = [];
  nick_name = [];
  status = unset;
  last_activity = now;
  token = none;
  is_mirror = false;
  mirror_port = zero_id;
  remote_ip = ip;
  is_live = true;
}

abbrev pub add_session : ℕ → Text → Process → Process
add_session now ip p = record p {
  world = record p.world {
    server = record p.world.server {
      objects = (p.next_object, new_session now ip) ∷ p.world.server.objects;
    };
  };
  next_object = suc p.next_object;
}

-- What an accept gives: an error, or a socket, whose peer may be gone by then.
pub data Socket : Type 0 where
  accept_error peer_gone : Socket
  peer_at : Text → Socket

-- The end of the handler of `do_accept`.
abbrev pub accept_again : Process → Process
accept_again p = if p.running then do_accept p else p

-- The handler of `do_accept`: `remote_endpoint()` in the constructor of Session throws where the peer
-- is gone, and nothing catches it here.
unfoldable pub accept_handler : ℕ → Socket → Signalled
accept_handler now accept_error p = ran tt (accept_again p)
accept_handler now peer_gone p = threw p
accept_handler now (peer_at ip) p = ran tt (accept_again (add_session now ip p))

-- The loop of `stop` over the registered sessions.
abbrev pub end_session : ℕ → Option Session → Handler
end_session s none w = ran tt w
end_session s (some o) w = catching (handle_error s) (pure tt) w

abbrev pub end_locked : ℕ → Handler
end_locked s w = end_session s (lock s w.server) w

unfoldable pub stop_each : List (ℕ × ℕ) → Handler
stop_each [] = pure tt
stop_each ((t, s) ∷ m) = end_locked s >> stop_each m

-- `stop` of a server that runs, from the cancelled timers on.
unfoldable pub end_sessions : Signalled
unfolding stop_each
end_sessions p =
    (on_world (stop_each p.world.server.sessions >> on_server (λ w. record w { sessions = [] }))
        >> change (λ p. record p { is_open = false; is_accepting = false }))
      p

unfoldable pub stop : Signalled
unfolding end_sessions
stop p =
    if not p.running
    then ran tt p
    else end_sessions (record p {
      running = false;
      timeout_check_running = false;
      broadcast_running = false;
      check_timer = none;
      broadcast_timer = none;
    })

-- What the I/O library and the signal handler of main call.
pub data Signal : Type 0 where
  check_fires : ℕ → Signal
  broadcast_fires stops : Signal
  accepts : ℕ → Socket → Signal

-- One that is not waited for does not happen.
unfoldable pub on_signal : Signal → Signalled
unfolding check_sessions broadcast_ccu schedule_broadcast accept_handler stop
on_signal (check_fires now) p = elim p.check_timer [
  | none ↦ ran tt p
  | some k ↦ check_sessions now (record p { check_timer = none })
]
on_signal broadcast_fires p = elim p.broadcast_timer [
  | none ↦ ran tt p
  | some k ↦ (on_world broadcast_ccu >> schedule_broadcast) (record p { broadcast_timer = none })
]
on_signal (accepts now socket) p =
    if p.is_accepting
    then accept_handler now socket (record p { is_accepting = false })
    else ran tt p
on_signal stops p = stop p

unfoldable pub run_signals : List Signal → Signalled
unfolding on_signal
run_signals [] = pure tt
run_signals (g ∷ gs) = on_signal g >> run_signals gs
