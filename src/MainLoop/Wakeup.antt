-- ===== src/MainLoop/Wakeup.antt =====
-- How other threads get the attention of the loop of common/MainLoop.cpp: `post`, `addTimer`,
-- `removeTimer`, `wakeup` and `terminate` against `loopOnce`. A step is one critical section of
-- `mFunctionLock` or `mTimerLock`, one access of `mTerminated`, or one call of the system on the pipe.
pub mod Invariant
pub mod Progress
pub mod Runs
mod Tests
use c_wrapper.Prelude.{
  ℕ, ◌+◌, ◌-◌, Bool, true, false, List, [], ◌∷◌, ◌++◌, ◌&&◌, ◌||◌, not, if◌then◌else◌, ltb, ◌==◌,
  length,
}
use c_wrapper.MainLoop.Pipe.{wakeup_code, terminate_code, after_command}

-- `kMaxFunctionSize`.
abbrev pub max_functions : ℕ
max_functions = 128

-- Where the loop is.
pub data LoopPc : Type 0 where
  running : (any : Bool) → LoopPc  -- in `runFunctions`, before `mFunctions.get`; `executedAny`
  timing : LoopPc  -- in `runTimers`, before it looks at the list for the time to wait
  polling : LoopPc  -- in `epoll_wait`
  draining : (terminated : Bool) → LoopPc  -- in `drainCommandPipe`, before `read`
  checking : (terminated : Bool) → LoopPc  -- before the load of `mTerminated`
  exited : LoopPc  -- `loop` has returned

-- The functions that wait and the bytes in the pipe, oldest first; `fresh`: a timer was inserted
-- since the loop last looked at its list. Then the threads between what they store and their byte:
-- `posting` holds `mFunctionLock`, `wakers` are in `addTimer` or `removeTimer`, `enders` in
-- `terminate`. `posted` and `ran` are all functions that were taken into the queue, and that were
-- called.
pub record System : Type 0 where
  pub queue : List ℕ
  pub pipe : List ℕ
  pub fresh : Bool
  pub terminated : Bool
  pub posting : Bool
  pub wakers : ℕ
  pub enders : ℕ
  pub loop : LoopPc
  pub posted : List ℕ
  pub ran : List ℕ

abbrev pub init : System
init = record {
  queue = [];
  pipe = [];
  fresh = false;
  terminated = false;
  posting = false;
  wakers = 0;
  enders = 0;
  loop = running false;
  posted = [];
  ran = [];
}

abbrev pub is_empty : List ℕ → Bool
is_empty [] = true
is_empty (x ∷ xs) = false

-- What the loop meets: whether the time to wait is 0, so that it runs timers again; and whether
-- `epoll_wait` ends by its time, by a watcher or by a signal.
pub record Input : Type 0 where
  pub due : Bool
  pub ends : Bool

-- `mFunctions.get` and the call; what follows when there is none.
run_functions : List ℕ → Bool → System → System
run_functions [] any s = record s { loop = if any then running false else timing }
run_functions (f ∷ fs) any s = record s { queue = fs; ran = s.ran ++ f ∷ []; loop = running true }

-- One `read` of the pipe.
read_pipe : List ℕ → Bool → System → System
read_pipe [] terminated s = record s { loop = checking terminated }
read_pipe (b ∷ bs) terminated s = record s {
  pipe = bs;
  loop = draining (after_command terminated b);
}

-- One access of the loop; `epoll_wait` reports the pipe whenever there is a byte in it: its batch of 32
-- events has room for the pipe where no more than 31 other descriptors are ready.
loop_at : LoopPc → Input → System → System
unfolding run_functions read_pipe
loop_at (running any) i s = if s.posting then s else run_functions s.queue any s
loop_at timing i s = record s { fresh = false; loop = if i.due then timing else polling }
loop_at polling i s =
    if not (is_empty s.pipe)
    then record s { loop = draining false }
    else if i.ends
    then record s { loop = running false }
    else s
loop_at (draining terminated) i s = read_pipe s.pipe terminated s
loop_at (checking terminated) i s = record s {
  loop = if terminated || s.terminated then exited else running false;
}
loop_at exited i s = s

pub loop_step : Input → System → System
unfolding loop_at
loop_step i s = loop_at s.loop i s

-- `write` to a pipe of `cap` bytes: EAGAIN when it is full.
pub put_byte : ℕ → ℕ → List ℕ → List ℕ
put_byte cap b pipe = if ltb (length pipe) cap then pipe ++ b ∷ [] else pipe

-- What a thread does next.
pub data Move : Type 0 where
  loops : Input → Move
  posts : ℕ → Move  -- `mFunctions.put` of `post`
  post_wakes : Move  -- its `wakeup`, and the end of its critical section
  adds_timer : Move  -- `insertTimerLocked` of `addTimer`
  removes_timer : Move  -- the erasure of `removeTimer`
  timer_wakes : Move  -- `wakeup` of either
  terminates : Move  -- the store of `terminate`
  sends_terminate : Move  -- its `sendCommand`
  wakes : Move  -- `wakeup` called by itself

-- A move that its thread cannot make now changes nothing.
pub step : ℕ → Move → System → System
step cap (loops i) s = loop_step i s
step cap (posts f) s =
    if s.posting || not (ltb (length s.queue) max_functions)
    then s
    else record s { queue = s.queue ++ f ∷ []; posted = s.posted ++ f ∷ []; posting = true }
step cap post_wakes s =
    if s.posting then record s { pipe = put_byte cap wakeup_code s.pipe; posting = false } else s
step cap adds_timer s = record s { fresh = true; wakers = s.wakers + 1 }
step cap removes_timer s = record s { wakers = s.wakers + 1 }
step cap timer_wakes s =
    if ltb 0 s.wakers
    then record s { pipe = put_byte cap wakeup_code s.pipe; wakers = s.wakers - 1 }
    else s
step cap terminates s = record s { terminated = true; enders = s.enders + 1 }
step cap sends_terminate s =
    if ltb 0 s.enders
    then record s { pipe = put_byte cap terminate_code s.pipe; enders = s.enders - 1 }
    else s
step cap wakes s = record s { pipe = put_byte cap wakeup_code s.pipe }

pub run : ℕ → List Move → System → System
run cap [] s = s
run cap (m ∷ ms) s = run cap ms (step cap m s)
