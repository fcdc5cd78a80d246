-- ===== src/Timer/State.antt =====
-- common/Timer.h: the states, the places in the code, and the members of a `Timer`.
use c_wrapper.Prelude.{ℕ, ◌-◌, ◌^◌, Bool, true, false}

-- `Timer::State`.
pub data TimerState : Type 0 where
  stopped queued executing requeue_pending : TimerState

-- `Timer::Infinite`.
abbrev pub infinite : ℕ
infinite = 2 ^ 32 - 1

-- A control call: `stop`, the destructor, or `start(msec, repeat)`; `restart` is a `start` with the
-- values stored.
pub data Call : Type 0 where
  stop destroy : Call
  start : (msec : ℕ) → (repeat : Bool) → Call

-- Whether the call runs `stopAndWait`.
abbrev pub waits : Call → Bool
waits stop = false
waits _ = true

-- Where the loop thread stands in `takeExpiredTimerLocked`, `executeFromLoop` and `requeueFromLoop`,
-- with the local variables that are live there.
pub data LoopPc : Type 0 where
  away : LoopPc  -- not concerned with this timer
  front : LoopPc  -- this timer is the first of the list and due; before `tryBeginExecuteFromLoop`
  begun : LoopPc  -- the exchange succeeded; before the store to `mStopRequested`
  taking : (can_execute : Bool) → LoopPc  -- before `pop_front`
  calling : LoopPc  -- before the callback
  called : (keep_by_handler : Bool) → LoopPc  -- before the configuration is read
  checking : (kept : Bool) → (interval : ℕ) → LoopPc  -- before the load of `mStopRequested`
  renewing : (interval : ℕ) → LoopPc  -- before the store to `mExpiry`
  pending : LoopPc  -- before the store of `RequeuePending`
  announcing : LoopPc  -- before the broadcast after it
  requeue_start : LoopPc  -- start of `requeueFromLoop`
  requeue_check : LoopPc  -- before its first load of `mStopRequested`
  inserting : LoopPc  -- before `addTimer`
  inserted : LoopPc  -- before the second load of `mStopRequested`
  unlisting : LoopPc  -- before `removeTimer`
  requeuing : LoopPc  -- before the store of `Queued`
  finishing : LoopPc  -- before the store of `Stopped`
  waking : LoopPc  -- before the last broadcast

-- Where the control thread stands in `stop`, `stopAndWait` and `start`.
pub data ControlPc : Type 0 where
  free : ControlPc  -- no call is under way
  loading : Call → ControlPc  -- before the load of `mState`
  exchanging : Call → ControlPc  -- before the exchange of `Queued` for `Stopped`
  won : Call → ControlPc  -- before the store to `mStopRequested` after it
  removing : Call → ControlPc  -- before `removeTimer`
  broadcasting : Call → ControlPc
  flagging : Call → ControlPc  -- the timer executes; before the store to `mStopRequested`
  testing : Call → ControlPc  -- in `wait`, before the predicate
  dozing : Call → ControlPc  -- the predicate failed; before the thread is asleep
  asleep : Call → ControlPc
  done : Call → ControlPc  -- `stop` or `stopAndWait` returns
  configuring : (msec : ℕ) → (repeat : Bool) → ControlPc  -- rest of `start`
  clearing queueing adding : ControlPc
  gone : ControlPc  -- the timer is destroyed

-- The atomics and the configuration of the timer, whether the loop's list holds it (`listed`), and the
-- two threads. `handler` says that `mHandler` is not null.
pub record System : Type 0 where
  pub state : TimerState
  pub stop_requested : Bool
  pub expiry : ℕ
  pub handler : Bool
  pub interval : ℕ
  pub repeat : Bool
  pub listed : Bool
  pub loop : LoopPc
  pub control : ControlPc

abbrev pub init : System
init = record {
  state = stopped;
  stop_requested = false;
  expiry = 2 ^ 64 - 1;
  handler = false;
  interval = infinite;
  repeat = false;
  listed = false;
  loop = away;
  control = free;
}
