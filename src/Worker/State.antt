-- ===== src/Worker/State.antt =====
-- common/WorkerThread.h: the states, the places in the code, and the members of a `WorkerThread`.
use c_wrapper.Prelude.{ℕ, Bool, true, false}

-- `WorkerThread::ThreadState`.
pub data ThreadState : Type 0 where
  idle starting running stopping exited : ThreadState

pub data Call : Type 0 where
  start stop join : Call

-- Where the thread that holds `mLifecycleLock` is. Before a call of `joinLocked` the Boolean says
-- whether `start` goes on after it.
pub data ControlPc : Type 0 where
  free : ControlPc
  testing : Call → ControlPc  -- before the load of `mState` in `start`, `join`, and `stop` after its request
  beginning : ControlPc  -- before the first section of `start`
  initialising : ControlPc  -- before `pthread_attr_init`
  preparing : ControlPc  -- before `onPrepare`
  creating : ControlPc  -- before `pthread_create`
  undoing : (cleans : Bool) → ControlPc  -- before `resetToIdle`; whether `onCleanup` follows
  undone : ControlPc  -- before the `onCleanup` of a failed `pthread_create`
  awaiting : ControlPc  -- in the section of `start` that waits for `mThreadReady`
  notifying : Call → ControlPc  -- in `onStopRequested`, called by `start` or `stop`
  requesting : ControlPc  -- before the section of `requestStop` in `stop`
  reading : (again : Bool) → ControlPc  -- before the first section of `joinLocked`
  joining : (again : Bool) → ControlPc  -- in `pthread_join`
  draining : (again : Bool) → ControlPc  -- in the section that waits for `mCallbacksInProgress == 0`
  cleaning : (again : Bool) → ControlPc  -- before `onCleanup`
  resetting : (again : Bool) → ControlPc  -- before the last section of `joinLocked`
  started : Bool → ControlPc  -- `start` returns the Boolean

-- Where the worker thread is in `taskEntry`.
pub data TaskPc : Type 0 where
  none : TaskPc  -- there is no thread, or it has been joined
  entering : TaskPc  -- before `mThreadReady = true`
  waiting : TaskPc  -- waits for `mStartReleased`
  working : TaskPc  -- in `run`
  sleeping : TaskPc  -- in the wait of `msleep`, called by `run`
  leaving : TaskPc  -- before the last section
  ended : TaskPc  -- has returned

-- The members; `has_worker` is `mWorker != nullptr`. Then the threads: `requesters` counts those in
-- `onStopRequested` outside of the lifecycle lock, and `stops` the calls of `onStopRequested` since
-- the last `start`.
pub record System : Type 0 where
  pub has_worker : Bool
  pub state : ThreadState
  pub stop_requested : Bool
  pub thread_ready : Bool
  pub start_released : Bool
  pub wakeup_requested : Bool
  pub callbacks : ℕ
  pub control : ControlPc
  pub task : TaskPc
  pub requesters : ℕ
  pub stops : ℕ

abbrev pub is_idle : ThreadState → Bool
is_idle idle = true
is_idle _ = false

abbrev pub is_starting : ThreadState → Bool
is_starting starting = true
is_starting _ = false

abbrev pub is_running : ThreadState → Bool
is_running running = true
is_running _ = false

abbrev pub is_stopping : ThreadState → Bool
is_stopping stopping = true
is_stopping _ = false

abbrev pub is_exited : ThreadState → Bool
is_exited exited = true
is_exited _ = false

abbrev pub is_ended : TaskPc → Bool
is_ended ended = true
is_ended _ = false
