-- ===== src/ThreadClient.antt =====
-- boost_Practice/03_Client_Application/MultiThreadAsyncTCPClient.cpp: the task client whose completion
-- handlers run on several threads, as steps of threads between which the two kinds of mutexes are taken
-- and given back. A session object and a thread are known by a number.

pub mod Threads
pub mod Guards
pub mod Frames
pub mod Deadlock
use Prim.Native.Nat.{◌%◌, ◌^◌}
use socket_communication.Common.{
  if◌then◌else◌, leb, ◌==◌, nat_eq, int_eq, bytes_eq, string_eq, lookup, erase, insert, bytes_of,
  to_string, ℕ, zero, suc, ◌+◌, Bool, true, false, Option, none, some, List, [], ◌∷◌, ◌++◌,
}
use socket_communication.Db.{Text, room_status_eq, game_status_eq}
use socket_communication.TaskClient.{Code, operation_aborted}

-- The operation of a session that is pending.
pub data Stage : Type 0 where
  connecting writing reading : Stage

-- `guard` is the thread that holds `m_cancel_guard`, `pending` the operation that is under way.
pub record Session : Type 0 where
  pub id : ℕ
  pub request : Text
  pub response : Text
  pub ec : Option Code
  pub was_cancelled : Bool
  pub guard : Option ℕ
  pub pending : Option Stage

-- Where a thread stands. In `completes`, `erases` and `reports` the flag says whether the handler still
-- holds the session's guard.
pub data Place : Type 0 where
  idle : Place
  -- `emulateLongComputationOp`: before the lock, and behind it
  submits submitted : ℕ → ℕ → Place
  -- a handler of the first two operations: before the session's lock, and behind it
  handles decides : ℕ → Stage → Place
  -- `onRequestComplete`: before the lock, behind it, and behind `unlock`
  completes erases reports : ℕ → Bool → Place
  -- `cancelRequest`: before the lock, behind it, before the session's lock, and behind that
  cancels searches marks marked : ℕ → Place

-- A call of a callback.
pub record Report : Type 0 where
  pub object : ℕ
  pub request_id : ℕ
  pub response : Text
  pub ec : Option Code

-- `m_active_sessions` with its guard, the sessions, where each thread stands, the calls of callbacks
-- and the requests that were written, the latest last, and the next number.
pub record Client : Type 0 where
  pub active_sessions : List (ℕ × ℕ)
  pub active_guard : Option ℕ
  pub objects : List (ℕ × Session)
  pub threads : ℕ → Place
  pub calls : List Report
  pub sent : List (ℕ × Text)
  pub next_object : ℕ

abbrev pub new_client : Client
new_client = record {
  active_sessions = [];
  active_guard = none;
  objects = [];
  threads = λ t. idle;
  calls = [];
  sent = [];
  next_object = 0;
}

abbrev pub goto : ℕ → Place → Client → Client
goto t p c = record c { threads = λ u. if t == u then p else c.threads u }

abbrev pub change : ℕ → Session → Client → Client
change o s c = record c { objects = insert o s c.objects }

-- `unique_lock` on `m_active_sessions_guard`: nothing happens while another holds it.
abbrev pub lock_active : ℕ → Place → Client → Option Client
lock_active t p c = elim c.active_guard [
  | none ↦ some (goto t p (record c { active_guard = some t }))
  | some u ↦ none
]

-- `unique_lock` on the guard of a session.
abbrev pub lock_session : ℕ → ℕ → Session → Place → Client → Option Client
lock_session t o s p c = elim s.guard [
  | none ↦ some (goto t p (change o (record s { guard = some t }) c))
  | some u ↦ none
]

abbrev pub unlock_active : Client → Client
unlock_active c = record c { active_guard = none }

-- What `emulateLongComputationOp` makes, and starts to connect behind the lock.
abbrev pub new_session : ℕ → ℕ → Session
new_session duration id = record {
  id = id;
  request = bytes_of "EMULATE_LONG_CALC_OP " ++ (to_string duration ++ (b'\n' ∷ []));
  response = [];
  ec = none;
  was_cancelled = false;
  guard = none;
  pending = some connecting;
}

unfoldable pub submit_session : ℕ → ℕ → Client → Client
submit_session duration id c = record c {
  active_sessions = insert id c.next_object c.active_sessions;
  active_guard = none;
  objects = insert c.next_object (new_session duration id) c.objects;
  next_object = suc c.next_object;
}

-- A handler behind the session's lock: a session that was cancelled is completed under that lock; for
-- another the next operation starts.
unfoldable pub decide : ℕ → ℕ → Session → Stage → Client → Client
decide t o s st c =
    let next : Session = record s {
      guard = none;
      pending = elim st as (λ _. Option Stage) [
        | connecting ↦ some writing
        | writing ↦ some reading
        | reading ↦ none
      ];
    } in
    if s.was_cancelled
    then goto t (completes o true) c
    else goto t idle (
        change o next (record c {
          sent = elim st as (λ _. List (ℕ × Text)) [
            | connecting ↦ c.sent ++ (o, s.request) ∷ []
            | writing ↦ c.sent
            | reading ↦ c.sent
          ];
        }))

-- The code that the callback is given.
abbrev pub final_code : Session → Option Code
final_code s = elim s.ec [
  | none ↦ if s.was_cancelled then some operation_aborted else none
  | some e ↦ some e
]

-- The end of `onRequestComplete`, and of the handler that has called it.
unfoldable pub report : ℕ → ℕ → Session → Bool → Client → Client
report t o s locked c =
    let unlocked : Session = if locked then record s { guard = none } else s in
    goto t idle (
      change o unlocked (record c {
        calls =
            c.calls
            ++ record { object = o; request_id = s.id; response = s.response; ec = final_code s }
              ∷ [];
      }))

-- The next step of a thread from where it stands, where it can make one.
unfoldable pub advance_from : ℕ → Place → Client → Option Client
unfolding submit_session decide report
advance_from t idle c = none
advance_from t (submits duration id) c = lock_active t (submitted duration id) c
advance_from t (submitted duration id) c = some (goto t idle (submit_session duration id c))
advance_from t (handles o st) c = elim (lookup o c.objects) [
  | none ↦ none
  | some s ↦ lock_session t o s (decides o st) c
]
advance_from t (decides o st) c = elim (lookup o c.objects) [
  | none ↦ none
  | some s ↦ some (decide t o s st c)
]
advance_from t (completes o locked) c = lock_active t (erases o locked) c
advance_from t (erases o locked) c = elim (lookup o c.objects) [
  | none ↦ none
  | some s ↦ some (
      goto t (reports o locked)
        (record (unlock_active c) { active_sessions = erase s.id c.active_sessions }))
]
advance_from t (reports o locked) c = elim (lookup o c.objects) [
  | none ↦ none
  | some s ↦ some (report t o s locked c)
]
advance_from t (cancels id) c = lock_active t (searches id) c
advance_from t (searches id) c = elim (lookup id c.active_sessions) [
  | none ↦ some (goto t idle (unlock_active c))
  | some o ↦ some (goto t (marks o) c)
]
advance_from t (marks o) c = elim (lookup o c.objects) [
  | none ↦ none
  | some s ↦ lock_session t o s (marked o) c
]
advance_from t (marked o) c = elim (lookup o c.objects) [
  | none ↦ none
  | some s ↦
      some
        (goto t idle (unlock_active (change o (record s { was_cancelled = true; guard = none }) c)))
]

-- What a thread that is idle is given to do: a call of a method, or the completion of the operation of
-- a session, with its error code and what has been read.
pub data Job : Type 0 where
  submit : ℕ → ℕ → Job
  cancel : ℕ → Job
  complete : ℕ → Option Code → Text → Job

-- The heads of the three handlers, for the operation that has completed.
unfoldable pub begin_handler : ℕ → ℕ → Session → Stage → Option Code → Text → Client → Client
begin_handler t o s reading none line c =
    goto t (completes o false) (change o (record s { ec = none; pending = none }) c)
begin_handler t o s reading (some e) line c =
    goto t (completes o false) (change o (record s { response = line; pending = none }) c)
begin_handler t o s connecting none line c =
    goto t (completes o false) (change o (record s { ec = none; pending = none }) c)
begin_handler t o s connecting (some e) line c =
    goto t (handles o connecting) (change o (record s { pending = none }) c)
begin_handler t o s writing none line c =
    goto t (completes o false) (change o (record s { ec = none; pending = none }) c)
begin_handler t o s writing (some e) line c =
    goto t (handles o writing) (change o (record s { pending = none }) c)

abbrev pub begin_pending :
    ℕ → ℕ → Session → Option Stage → Option Code → Text → Client → Option Client
begin_pending t o s none ec line c = none
begin_pending t o s (some st) ec line c = some (begin_handler t o s st ec line c)

unfoldable pub begin_job : ℕ → Job → Client → Option Client
unfolding begin_handler
begin_job t (submit duration id) c = some (goto t (submits duration id) c)
begin_job t (cancel id) c = some (goto t (cancels id) c)
begin_job t (complete o ec line) c = elim (lookup o c.objects) [
  | none ↦ none
  | some s ↦ begin_pending t o s s.pending ec line c
]

abbrev pub is_idle : Place → Bool
is_idle idle = true
is_idle _ = false

-- A step of a thread: the start of a job, or the next step in one. One that cannot be made does not
-- happen.
pub data Move : Type 0 where
  begins : ℕ → Job → Move
  advances : ℕ → Move

abbrev pub or_same : Client → Option Client → Client
or_same c none = c
or_same c (some d) = d

unfoldable pub make : Move → Client → Client
unfolding advance_from begin_job
make (begins t j) c = if is_idle (c.threads t) then or_same c (begin_job t j c) else c
make (advances t) c = or_same c (advance_from t (c.threads t) c)

unfoldable pub run_moves : List Move → Client → Client
unfolding make
run_moves [] c = c
run_moves (m ∷ ms) c = run_moves ms (make m c)

-- The loop of the constructor, with its counter of 8 bits and the threads made so far; `none` is a loop
-- that has not ended within `fuel` tests.
unfoldable pub spawn_threads : ℕ → ℕ → ℕ → ℕ → Option ℕ
spawn_threads zero num i made = none
spawn_threads (suc fuel) num i made =
    let rest = spawn_threads fuel num ((i + 1) % 2 ^ 8) (suc made) in
    if leb i num then rest else some made
