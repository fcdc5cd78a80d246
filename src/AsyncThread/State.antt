-- ===== src/AsyncThread/State.antt =====
-- common/AsyncThread.h: the places in the code, and the members of an `AsyncThread`.
use c_wrapper.Prelude.{ℕ, Bool, Option, List}
use c_wrapper.Worker.{System}
use c_wrapper.FixedFunction.{FixedFunction, Event}

-- A callable is named by a number.
pub data Call : Type 0 where
  starts : (f : ℕ) → Call
  stops destroys : Call

-- Where the thread that holds `mLifecycleLock` is, or that runs the destructor after it. The Boolean
-- tells the `stop` of the destructor.
pub data HolderPc : Type 0 where
  away : HolderPc  -- no call is under way
  checking : (f : ℕ) → HolderPc  -- before `mThreadEngine.shouldRun()` in `start`
  clearing : (f : ℕ) → HolderPc  -- before `mThreadEngine.stop()` in `start`
  cleared : (f : ℕ) → HolderPc  -- in that call
  assigning : (f : ℕ) → HolderPc  -- before the assignment to `mWorkerTask`
  launching : HolderPc  -- before `mThreadEngine.start(*this)`
  launched : HolderPc  -- in that call
  returned : Bool → HolderPc  -- `start` returns the Boolean
  closing : (last : Bool) → HolderPc  -- before `mThreadEngine.stop()` in `stop`
  closed : (last : Bool) → HolderPc  -- in that call
  dropping : HolderPc  -- before the destructor of `mWorkerTask`
  over : HolderPc  -- the object is gone

-- Where the worker thread is in `run`.
pub data Body : Type 0 where
  outside : Body
  testing : Body  -- before the test of `mWorkerTask`
  calling : Option ℕ → Body  -- in the call of what the storage held
  finished : Body  -- before the return

-- The members; the threads; and what has happened to callables, in order.
pub record Async : Type 0 where
  pub engine : System
  pub task : FixedFunction
  pub holder : HolderPc
  pub body : Body
  pub events : List Event
