-- ===== src/Worker/Owner.antt =====
-- What the one owner of a worker, that calls `start` and `stop` in turn, may rely on.
use c_wrapper.Prelude.{◌≡◌, ◌≢◌, ◌⊎◌, List, [], ◌∷◌, ◌++◌, refl, arith, Bool, true, false, not}
use c_wrapper.Worker.{
  start, stop, ControlPc, free, testing, requesting, notifying, reading, joining, draining,
  cleaning, resetting, started, TaskPc, none, working, sleeping, Event, returns, System, answered,
  request, tells, released, counted, prepared, reset_state, after_join, after_notify, tested,
  control_at, control_step, work, task_at, task_step, begin_at, init, controls, tasks, begins,
  requests, answers, Move, step, run,
}
use c_wrapper.Worker.Invariant.{IsSound}

-- No worker thread exists.
abbrev pub is_gone : TaskPc → Bool
is_gone none = true
is_gone _ = false

-- `stop` is under way on the engine, or it has returned and there is no thread.
abbrev pub is_in_stop : ControlPc → TaskPc → Bool
is_in_stop requesting t = true
is_in_stop (notifying stop) t = true
is_in_stop (testing stop) t = true
is_in_stop (reading false) t = true
is_in_stop (joining false) t = true
is_in_stop (draining false) t = true
is_in_stop (cleaning false) t = true
is_in_stop (resetting false) t = true
is_in_stop free t = is_gone t
is_in_stop _ t = false

-- `start` is under way on the engine.
abbrev pub is_in_start : ControlPc → Bool
is_in_start free = false
is_in_start requesting = false
is_in_start (notifying c) = elim c [ start ↦ true | _ ↦ false ]
is_in_start (testing c) = elim c [ start ↦ true | _ ↦ false ]
is_in_start (reading b) = b
is_in_start (joining b) = b
is_in_start (draining b) = b
is_in_start (cleaning b) = b
is_in_start (resetting b) = b
is_in_start _ = true

abbrev pub is_free : ControlPc → Bool
is_free free = true
is_free _ = false

-- A call of `pthread_join` on the engine's thread that fails.
abbrev pub join_fails : ControlPc → Bool → Bool
join_fails (joining again) ok = not ok
join_fails _ ok = false

-- The engine's accesses, for the holder and for the worker thread.
pub control_step-is_in_stop :
    (pc : ControlPc) (ok : Bool) (e : System)
    → e.control ≡ pc
    → IsSound e
    → join_fails e.control ok ≡ false
    → is_in_stop e.control e.task ≡ true
    → let e' = step (controls ok) e in is_in_stop e'.control e'.task ≡ true
unfolding step control_step control_at tested after_join after_notify reset_state answered request
    tells released counted prepared
control_step-is_in_stop pc ok e at v j h = ground arith

pub control_step-is_in_start :
    (pc : ControlPc) (ok : Bool) (s : System)
    → s.control ≡ pc
    → is_in_start pc ≡ true
    → ((b : Bool) → pc ≢ started b)
    → is_in_start (step (controls ok) s).control ≡ true
unfolding step control_step control_at tested after_join after_notify reset_state answered request
    tells released counted prepared
control_step-is_in_start (started b) ok s at h n = absurd (n b refl)
control_step-is_in_start pc ok s at h n = ground arith

-- Inside `run`, that is in it or in its `msleep`.
abbrev pub is_inside : TaskPc → Bool
is_inside working = true
is_inside sleeping = true
is_inside _ = false

-- The holder of the lifecycle lock starts the thread and joins it: neither is in `run`.
pub control_step-task :
    (pc : ControlPc) (ok : Bool) (s : System)
    → s.control ≡ pc
    → IsSound s
    → let s' = step (controls ok) s in
      (s'.task ≡ s.task) ⊎ ((is_inside s.task ≡ false) × (is_inside s'.task ≡ false))
unfolding step control_step control_at tested after_join after_notify reset_state answered request
    tells released counted prepared
control_step-task pc ok s at v = ground arith

-- The worker thread leaves the other's place alone.
pub task_step-control : (e : Event) (s : System) → (step (tasks e) s).control ≡ s.control
unfolding step task_step task_at work
task_step-control e s = ground arith

pub task_step-is_gone :
    (e : Event) (s : System) → is_gone s.task ≡ true → is_gone (step (tasks e) s).task ≡ true
unfolding step task_step task_at work
task_step-is_gone e s h = ground arith

-- A call is begun where none is under way.
pub begin_stop :
    (s : System)
    → s.control ≡ free
    → let s' = step (begins stop) s in (s'.control ≡ requesting) × (s'.task ≡ s.task)
unfolding step begin_at
begin_stop s h = ground arith

pub begin_start :
    (s : System)
    → s.control ≡ free
    → let s' = step (begins start) s in (s'.control ≡ testing start) × (s'.task ≡ s.task)
unfolding step begin_at
begin_start s h = ground arith

pub init_lem : (init.control ≡ free) × (init.task ≡ none) × (init.requesters ≡ 0)
unfolding init
init_lem = (refl, refl, refl)

pub return_lem :
    (b ok : Bool) (s : System)
    → s.control ≡ started b
    → let s' = step (controls ok) s in (s'.control ≡ free) × (s'.task ≡ s.task)
unfolding step control_step control_at
return_lem b ok s h = ground arith

abbrev pub is_return : Event → Bool
is_return returns = true
is_return _ = false

-- `run` goes on, and is left where it returns.
pub task_step-works :
    (e : Event) (s : System)
    → s.task ≡ working
    → is_inside (step (tasks e) s).task ≡ not (is_return e)
unfolding step task_step task_at work
task_step-works e s h = ground arith

pub task_step-sleeps :
    (e : Event) (s : System) → s.task ≡ sleeping → is_inside (step (tasks e) s).task ≡ true
unfolding step task_step task_at
task_step-sleeps e s h = ground arith

-- `run` is entered, but not in a sleep.
pub task_step-enters :
    (e : Event) (s : System) → is_inside s.task ≡ false → (step (tasks e) s).task ≢ sleeping
unfolding step task_step task_at
task_step-enters e s h = ground arith

control_at-free : (pc : ControlPc) (ok : Bool) (s : System) → pc ≡ free → control_at pc ok s ≡ s
unfolding control_at
control_at-free pc ok s h = rw h refl

pub free-step : (ok : Bool) (s : System) → s.control ≡ free → step (controls ok) s ≡ s
unfolding step control_step
free-step ok s h = control_at-free s.control ok s h

-- Interleavings put together.
pub run_nil : (s : System) → run [] s ≡ s
unfolding run
run_nil s = refl

pub run_cons : (m : Move) (ms : List Move) (s : System) → run (m ∷ ms) s ≡ run ms (step m s)
unfolding run
run_cons m ms s = refl

pub run_append : (ms ns : List Move) (s : System) → run (ms ++ ns) s ≡ run ns (run ms s)
unfolding run
run_append [] ns s = refl
run_append (m ∷ ms) ns s = run_append ms ns (step m s)

-- The owner and its thread make no `requestStop` of their own.
abbrev pub is_own : Move → Bool
is_own requests = false
is_own answers = false
is_own _ = true

pub own_step-requesters :
    (m : Move) (s : System) → is_own m ≡ true → (step m s).requesters ≡ s.requesters
unfolding step control_step control_at tested after_join after_notify reset_state answered request
    tells released counted prepared task_step task_at work begin_at
own_step-requesters m s h = ground arith
