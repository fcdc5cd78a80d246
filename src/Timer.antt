-- ===== src/Timer.antt =====
-- common/Timer.h and common/Timer.cpp: one `Timer`, the loop thread that runs it and the one thread
-- that holds its control (`mControlLock`), interleaved an access of shared state at a time.
pub mod State
pub mod Invariant
pub mod Stop
pub mod Start
pub mod Races
mod Tests
pub use State.*
use c_wrapper.Prelude.{
  ℕ, ◌+◌, ◌-◌, ◌%◌, ◌^◌, Bool, true, false, List, [], ◌∷◌, ◌&&◌, ◌||◌, not, if◌then◌else◌, ◌==◌,
}

-- `makeExpiry`, at the tick count `now`.
unfoldable pub make_expiry : ℕ → ℕ → ℕ
make_expiry interval now = if interval == infinite then 2 ^ 64 - 1 else (now + interval) % 2 ^ 64

abbrev pub is_queued : TimerState → Bool
is_queued queued = true
is_queued _ = false

-- The loop owns the execution path.
abbrev pub is_busy : TimerState → Bool
is_busy executing = true
is_busy requeue_pending = true
is_busy _ = false

abbrev pub is_pending : TimerState → Bool
is_pending requeue_pending = true
is_pending _ = false

-- The loop thread holds `mTimerLock`, which `addTimer` and `removeTimer` take.
abbrev pub holds_list : LoopPc → Bool
holds_list front = true
holds_list begun = true
holds_list (taking _) = true
holds_list _ = false

-- `mStateChanged.broadcast()` reaches a thread that is asleep, and no other.
abbrev pub woken : ControlPc → ControlPc
woken (asleep c) = testing c
woken p = p

-- What the loop thread meets: whether it reaches the timer at the front of the list and due, what the
-- callback returns, and the tick count.
pub record Input : Type 0 where
  pub due : Bool
  pub answer : Bool
  pub now : ℕ

-- One access of the loop thread.
loop_at : LoopPc → Input → System → System
loop_at away i s = if s.listed && i.due then record s { loop = front } else s
loop_at front i s =
    if is_queued s.state
    then record s { state = executing; loop = begun }
    else record s { loop = taking false }
loop_at begun i s = record s { stop_requested = false; loop = taking true }
loop_at (taking ok) i s = record s { listed = false; loop = if ok then calling else away }
loop_at calling i s = record s { loop = called (s.handler && i.answer) }
loop_at (called keep) i s = record s {
  loop = checking (keep && s.repeat && not (s.interval == infinite) && s.handler) s.interval;
}
loop_at (checking kept interval) i s = record s {
  loop = if not s.stop_requested && kept then renewing interval else finishing;
}
loop_at (renewing interval) i s = record s { expiry = make_expiry interval i.now; loop = pending }
loop_at pending i s = record s { state = requeue_pending; loop = announcing }
loop_at announcing i s = record s { control = woken s.control; loop = requeue_start }
loop_at requeue_start i s = record s { loop = if is_pending s.state then requeue_check else waking }
loop_at requeue_check i s = record s { loop = if s.stop_requested then finishing else inserting }
loop_at inserting i s = record s { listed = true; loop = inserted }
loop_at inserted i s = record s { loop = if s.stop_requested then unlisting else requeuing }
loop_at unlisting i s = record s { listed = false; loop = finishing }
loop_at requeuing i s = record s { state = queued; loop = waking }
loop_at finishing i s = record s { state = stopped; loop = waking }
loop_at waking i s = record s { control = woken s.control; loop = away }

pub loop_step : Input → System → System
unfolding loop_at
loop_step i s = loop_at s.loop i s

-- `load` in `stop` and `stopAndWait`, and where each case leads.
seen : TimerState → Call → ControlPc
seen stopped c = done c
seen queued c = exchanging c
seen executing c = flagging c
seen requeue_pending c = flagging c

-- Where a call goes on after `stop` or `stopAndWait` has returned.
returned : Call → ControlPc
returned stop = free
returned destroy = gone
returned (start msec repeat) = if msec == infinite then free else configuring msec repeat

-- One access of the control thread. `spurious` is a weak exchange that fails, or a wait that ends, for
-- no reason.
control_at : ControlPc → Bool → ℕ → System → System
unfolding seen returned
control_at free spurious now s = s
control_at (loading c) spurious now s = record s { control = seen s.state c }
control_at (exchanging c) spurious now s =
    if is_queued s.state && not spurious
    then record s { state = stopped; control = won c }
    else record s { control = loading c }
control_at (won c) spurious now s = record s { stop_requested = true; control = removing c }
control_at (removing c) spurious now s =
    if holds_list s.loop then s else record s { listed = false; control = broadcasting c }
control_at (broadcasting c) spurious now s = record s { control = done c }
control_at (flagging c) spurious now s = record s {
  stop_requested = true;
  control = if waits c then testing c else free;
}
control_at (testing c) spurious now s = record s {
  control = if is_busy s.state then dozing c else loading c;
}
control_at (dozing c) spurious now s = record s { control = asleep c }
control_at (asleep c) spurious now s = if spurious then record s { control = testing c } else s
control_at (done c) spurious now s = record s { control = returned c }
control_at (configuring msec repeat) spurious now s = record s {
  interval = msec;
  repeat = repeat;
  expiry = make_expiry msec now;
  control = clearing;
}
control_at clearing spurious now s = record s { stop_requested = false; control = queueing }
control_at queueing spurious now s = record s { state = queued; control = adding }
control_at adding spurious now s =
    if holds_list s.loop then s else record s { listed = true; control = free }
control_at gone spurious now s = s

pub control_step : Bool → ℕ → System → System
unfolding control_at
control_step spurious now s = control_at s.control spurious now s

-- A call begins when no other is under way.
begin_at : ControlPc → Call → System → System
begin_at free c s = record s { control = loading c }
begin_at _ c s = s

-- What can happen next: an access of either thread, a new call, or `setHandler`, `setInterval`,
-- `setRepeat` from anywhere.
pub data Move : Type 0 where
  loops : Input → Move
  controls : (spurious : Bool) → (now : ℕ) → Move
  begins : Call → Move
  sets_handler : Bool → Move
  sets_interval : ℕ → Move
  sets_repeat : Bool → Move

pub step : Move → System → System
unfolding begin_at
step (loops i) s = loop_step i s
step (controls spurious now) s = control_step spurious now s
step (begins c) s = begin_at s.control c s
step (sets_handler b) s = record s { handler = b }
step (sets_interval n) s = record s { interval = n }
step (sets_repeat b) s = record s { repeat = b }

pub run : List Move → System → System
run [] s = s
run (m ∷ ms) s = run ms (step m s)

-- `isRunning`.
pub is_running : System → Bool
is_running s = elim s.state [ stopped ↦ false | _ ↦ true ]
