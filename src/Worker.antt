-- ===== src/Worker.antt =====
-- common/WorkerThread.h, WorkerThread.cpp: the life of a worker thread. Three kinds of threads meet:
-- the one that holds `mLifecycleLock` (in `start`, `stop` or `join`), the worker thread in
-- `taskEntry`, and any others in `requestStop`, from the worker thread itself too. One access is one
-- critical section of `mStateLock`, one load of `mState`, or one call of the system or of `IWorker`.
-- A thread that waits makes no access until its predicate holds: `mStateCv` is broadcast under
-- `mStateLock`.
pub mod State
pub mod Invariant
pub mod Safety
pub mod Stop
pub mod Owner
pub mod Sleep
mod Tests
pub use State.*
use c_wrapper.Prelude.{
  ℕ, zero, suc, ◌+◌, ◌-◌, ◌%◌, ◌^◌, ◌≡◌, Bool, true, false, List, [], ◌∷◌, ◌&&◌, ◌||◌, not,
  if◌then◌else◌, ltb, ◌==◌,
}

unfoldable pub init : System
init = record {
  has_worker = false;
  state = idle;
  stop_requested = false;
  thread_ready = false;
  start_released = false;
  wakeup_requested = false;
  callbacks = 0;
  control = free;
  task = none;
  requesters = 0;
  stops = 0;
}

-- `shouldRun`.
unfoldable pub should_run : System → Bool
should_run s = is_running s.state

-- `resetStateLocked`.
unfoldable pub reset_state : System → System
reset_state s = record s {
  has_worker = false;
  state = idle;
  stop_requested = false;
  thread_ready = false;
  start_released = false;
  wakeup_requested = false;
  callbacks = 0;
}

-- What the first section of `start` stores in an idle worker.
unfoldable pub prepared : System → System
prepared s = record s {
  has_worker = true;
  state = starting;
  stop_requested = false;
  thread_ready = false;
  start_released = false;
  wakeup_requested = false;
  callbacks = 0;
  stops = 0;
}

-- `++mCallbacksInProgress` for a worker that is told of the stop.
unfoldable pub counted : System → System
counted s =
    if s.has_worker
    then record s { callbacks = (s.callbacks + 1) % 2 ^ 32; stops = s.stops + 1 }
    else s

-- The section after `onStopRequested`.
unfoldable pub answered : System → System
answered s = record s { callbacks = if ltb 0 s.callbacks then s.callbacks - 1 else s.callbacks }

-- The first section of `requestStop`.
unfoldable pub request : System → System
unfolding counted
request s =
    if is_idle s.state || is_exited s.state
    then s
    else if is_running s.state
    then counted (record s { stop_requested = true; wakeup_requested = true; state = stopping })
    else record s { stop_requested = true; wakeup_requested = true }

-- Whether it calls `onStopRequested`.
unfoldable pub tells : System → Bool
tells s = is_running s.state && s.has_worker

-- The section of `start` once the thread is ready.
unfoldable pub released : System → System
unfolding counted
released s =
    if s.stop_requested
    then counted (record s { state = stopping; start_released = true; wakeup_requested = true })
    else record s { state = running; start_released = true }

-- After `joinLocked`.
unfoldable pub after_join : Bool → ControlPc
after_join true = beginning
after_join false = free

-- After `onStopRequested`.
unfoldable pub after_notify : Call → ControlPc
after_notify start = started true
after_notify c = testing c

-- What `start`, `join` and `stop` do on the state that they load.
unfoldable pub tested : Call → ThreadState → ControlPc
tested start st = if is_exited st then reading true else beginning
tested c st = if is_idle st then free else reading false

-- One access of the thread that holds `mLifecycleLock`; `ok` is what a foreign call answers:
-- `pthread_attr_init`, `onPrepare`, `pthread_create` or `pthread_join`.
unfoldable pub control_at : ControlPc → Bool → System → System
unfolding tested prepared released
control_at free ok s = s
control_at (testing c) ok s = record s { control = tested c s.state }
control_at beginning ok s =
    if is_idle s.state
    then record (prepared s) { control = initialising }
    else record s { control = started false }
control_at initialising ok s = record s { control = if ok then preparing else undoing false }
control_at preparing ok s = record s { control = if ok then creating else undoing false }
control_at creating ok s =
    if ok
    then record s { task = entering; control = awaiting }
    else record s { control = undoing true }
control_at (undoing cleans) ok s = record (reset_state s) {
  control = if cleans then undone else started false;
}
control_at undone ok s = record s { control = started false }
control_at awaiting ok s =
    if s.thread_ready
    then record (released s) {
      control = if s.stop_requested && s.has_worker then notifying start else started true;
    }
    else s
control_at (notifying c) ok s = record (answered s) { control = after_notify c }
control_at requesting ok s = record (request s) {
  control = if tells s then notifying stop else testing stop;
}
control_at (reading again) ok s = record s {
  control = if is_idle s.state || is_starting s.state then after_join again else joining again;
}
control_at (joining again) ok s =
    if not ok
    then record s { control = after_join again }
    else if is_ended s.task
    then record s { task = none; control = draining again }
    else s
control_at (draining again) ok s =
    if s.callbacks == 0
    then record s {
      has_worker = false;
      control = if s.has_worker then cleaning again else resetting again;
    }
    else s
control_at (cleaning again) ok s = record s { control = resetting again }
control_at (resetting again) ok s = record (reset_state s) { control = after_join again }
control_at (started b) ok s = record s { control = free }

unfoldable pub control_step : Bool → System → System
unfolding control_at
control_step ok s = control_at s.control ok s

-- What `run` does next, and whether the time of a sleep is over.
pub data Event : Type 0 where
  goes_on returns sleeps times_out : Event

abbrev pub is_timeout : Event → Bool
is_timeout times_out = true
is_timeout _ = false

-- `run` returns, or calls `msleep` with a positive time.
unfoldable pub work : Event → System → System
work returns s = record s { task = leaving }
work sleeps s = if is_running s.state then record s { task = sleeping } else s
work _ s = s

-- One access of the worker thread.
unfoldable pub task_at : TaskPc → Event → System → System
unfolding work
task_at none e s = s
task_at entering e s = record s { thread_ready = true; task = waiting }
task_at waiting e s =
    if s.start_released then record s { task = if s.has_worker then working else leaving } else s
task_at working e s = work e s
task_at sleeping e s =
    if not (is_running s.state) || s.wakeup_requested || is_timeout e
    then record s { wakeup_requested = false; task = working }
    else s
task_at leaving e s = record s { state = exited; task = ended }
task_at ended e s = s

unfoldable pub task_step : Event → System → System
unfolding task_at
task_step e s = task_at s.task e s

unfoldable pub begin_at : ControlPc → Call → System → System
begin_at free stop s = record s { control = requesting }
begin_at free c s = record s { control = testing c }
begin_at _ c s = s

pub data Move : Type 0 where
  controls : (ok : Bool) → Move
  tasks : Event → Move
  begins : Call → Move
  requests : Move  -- `requestStop` from anywhere, up to `onStopRequested`
  answers : Move  -- the end of such an `onStopRequested`

unfoldable pub step : Move → System → System
unfolding begin_at
step (controls ok) s = control_step ok s
step (tasks e) s = task_step e s
step (begins c) s = begin_at s.control c s
step requests s = record (request s) {
  requesters = if tells s then s.requesters + 1 else s.requesters;
}
step answers s =
    if ltb 0 s.requesters then record (answered s) { requesters = s.requesters - 1 } else s

pub run : List Move → System → System
run [] s = s
run (m ∷ ms) s = run ms (step m s)
