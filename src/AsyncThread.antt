-- ===== src/AsyncThread.antt =====
-- common/AsyncThread.h: a callable that runs on a worker thread. The engine is that of Worker, with
-- all of its accesses, and the task is a FixedFunction. The engine is private, so it is entered by
-- the holder of `mLifecycleLock` alone, and the callbacks of IWorker other than `run` do nothing.
pub use State.*
pub mod Invariant
pub mod Safety
pub mod Back
pub mod Restart
pub mod Finish
pub mod Ownership
mod Tests
pub mod State
use c_wrapper.Prelude.{
  ℕ, ◌≡◌, Bool, true, false, Option, List, [], ◌∷◌, ◌++◌, ◌&&◌, not, if◌then◌else◌,
}
use c_wrapper.Worker.{
  start, stop, free, joining, started, TaskPc, waiting, working, returns, should_run,
}
use c_wrapper.FixedFunction.{FixedFunction, Event, empty, construct, invoke, is_set, reset, assign}
use c_wrapper.Worker as Engine

pub init : Async
init = record { engine = Engine.init; task = empty; holder = away; body = outside; events = [] }

-- `mWorkerTask = FixedFunction(...)`: the new task, and what happens to callables.
pub store : ℕ → FixedFunction → FixedFunction × List Event
unfolding construct
store f x =
    let (made, made_it) = construct f in
    let (x', rest, moved) = assign x made in (x', made_it ++ moved ++ (reset rest).1)

-- A call on the engine has returned.
abbrev pub is_back : Engine.ControlPc → Bool
is_back Engine.free = true
is_back _ = false

-- The return of `mThreadEngine.start`.
launched_at : Engine.ControlPc → Async → Async
launched_at (started b) s = record s {
  engine = Engine.step (Engine.controls true) s.engine;
  holder = returned b;
}
launched_at _ s = s

-- One access of the holder outside of the engine.
pub holder_at : HolderPc → Async → Async
unfolding store
holder_at (checking f) s = record s {
  holder = if should_run s.engine then returned false else clearing f;
}
holder_at (clearing f) s = record s {
  engine = Engine.step (Engine.begins stop) s.engine;
  holder = cleared f;
}
holder_at (cleared f) s = if is_back s.engine.control then record s { holder = assigning f } else s
holder_at (assigning f) s = record s {
  task = (store f s.task).0;
  events = s.events ++ (store f s.task).1;
  holder = launching;
}
holder_at launching s = record s {
  engine = Engine.step (Engine.begins start) s.engine;
  holder = launched;
}
holder_at launched s = launched_at s.engine.control s
holder_at (returned b) s = record s { holder = away }
holder_at (closing last) s = record s {
  engine = Engine.step (Engine.begins stop) s.engine;
  holder = closed last;
}
holder_at (closed last) s =
    if is_back s.engine.control then record s { holder = if last then dropping else away } else s
holder_at dropping s = record s {
  task = (reset s.task).0;
  events = s.events ++ (reset s.task).1;
  holder = over;
}
holder_at _ s = s

-- `engine` moves on, and the worker thread enters `run` with it.
enters : TaskPc → Body → Body
enters working outside = testing
enters _ b = b

-- One access of the worker thread inside `run`: the test of `mWorkerTask`, the call with its accesses
-- through the `Context`, and the return.
pub body_at : Body → Engine.Event → Async → Async
body_at testing e s =
    if is_set s.task
    then record s { body = calling s.task.storage; events = s.events ++ invoke s.task }
    else record s { body = finished }
body_at (calling f) returns s = record s { body = finished }
body_at (calling f) e s = record s { engine = Engine.step (Engine.tasks e) s.engine }
body_at finished e s = record s {
  engine = Engine.step (Engine.tasks returns) s.engine;
  body = outside;
}
body_at outside e s = s

-- One access of the worker thread.
pub task_at : TaskPc → Engine.Event → Async → Async
unfolding enters body_at
task_at working e s = body_at s.body e s
task_at pc e s =
    let engine' = Engine.step (Engine.tasks e) s.engine in
    record s { engine = engine'; body = enters engine'.task s.body }

-- One access of the engine for the holder; the return of its `start` is taken by the holder.
pub engine_at : Engine.ControlPc → Bool → Async → Async
engine_at (started b) ok s = s
engine_at pc ok s = record s { engine = Engine.step (Engine.controls ok) s.engine }

begin_at : HolderPc → Call → Async → Async
begin_at away (starts f) s = record s { holder = checking f }
begin_at away stops s = record s { holder = closing false }
begin_at away destroys s = record s { holder = closing true }
begin_at _ c s = s

pub data Move : Type 0 where
  begins : Call → Move  -- a thread other than the worker thread takes `mLifecycleLock`
  holds : Move
  controls : (ok : Bool) → Move  -- the holder in the engine; `ok` is what a foreign call answers
  tasks : Engine.Event → Move

pub step : Move → Async → Async
unfolding begin_at
step (begins c) s = begin_at s.holder c s
step holds s = holder_at s.holder s
step (controls ok) s = engine_at s.engine.control ok s
step (tasks e) s = task_at s.engine.task e s

pub run : List Move → Async → Async
run [] s = s
run (m ∷ ms) s = run ms (step m s)
