-- ===== src/AsyncThread/Safety.antt =====
-- What the callable of an AsyncThread may rely on, in every interleaving.
use c_wrapper.Prelude.{◌≡◌, refl, arith, Bool, true, false, ℕ, ◌⊎◌, Option, List, [], ◌∷◌}
use c_wrapper.Worker.{TaskPc, none, working}
use c_wrapper.Worker as Engine
use c_wrapper.FixedFunction.{FixedFunction, is_set}
use c_wrapper.AsyncThread.{
  Async, HolderPc, Body, outside, calling, assigning, launched, dropping, over, init, step, run,
  holder_at, launched_at, engine_at, task_at, body_at, begin_at, enters, Move, controls, tasks,
  holds, begins,
}
use c_wrapper.AsyncThread.Invariant.{IsSound, init-IsSound, step-IsSound, run-IsSound, all_join}

-- Where the next access of the holder changes `mWorkerTask`.
abbrev pub changes : HolderPc → Bool
changes (assigning f) = true
changes dropping = true
changes _ = false

-- The callable that is being called is the one in the storage.
abbrev Held : Body → FixedFunction → Type 0
Held (calling x) t = (t.storage ≡ x) × (is_set t ≡ true)
Held _ t = Unit

launched_at-Held :
    (pc : Engine.ControlPc) (s : Async)
    → Held s.body s.task
    → Held (launched_at pc s).body (launched_at pc s).task
unfolding launched_at
launched_at-Held pc s v = ground arith

holder_at-Held :
    (pc : HolderPc) (s : Async)
    → s.holder ≡ pc
    → IsSound s
    → Held s.body s.task
    → Held (holder_at pc s).body (holder_at pc s).task
unfolding holder_at
holder_at-Held launched s at ok v = launched_at-Held s.engine.control s v
holder_at-Held pc s at ok v = ground arith

body_at-Held :
    (b : Body) (e : Engine.Event) (s : Async)
    → s.body ≡ b
    → Held s.body s.task
    → Held (body_at b e s).body (body_at b e s).task
unfolding body_at
body_at-Held b e s at v = ground arith

task_at-Held :
    (pc : TaskPc) (e : Engine.Event) (s : Async)
    → Held s.body s.task
    → Held (task_at pc e s).body (task_at pc e s).task
unfolding task_at enters
task_at-Held working e s v = body_at-Held s.body e s refl v
task_at-Held pc e s v = ground arith

step-Held :
    (m : Move) (s : Async) → IsSound s → Held s.body s.task → Held (step m s).body (step m s).task
unfolding step begin_at engine_at
step-Held (begins c) s ok v = ground arith
step-Held holds s ok v = holder_at-Held s.holder s refl ok v
step-Held (controls o) s ok v = ground arith
step-Held (tasks e) s ok v = task_at-Held s.engine.task e s v

run-Held :
    (ms : List Move) (s : Async)
    → all_join ms s ≡ true
    → IsSound s
    → Held s.body s.task
    → Held (run ms s).body (run ms s).task
unfolding run all_join
run-Held [] s j ok v = v
run-Held (m ∷ ms) s j ok v =
    run-Held ms (step m s) (ground arith) (step-IsSound m s (ground arith) ok) (step-Held m s ok v)

-- In every interleaving in which no pthread_join fails, while a callable is being called it is in the
-- storage of mWorkerTask: no start and no destructor has replaced, moved or destroyed it. Nor is the
-- holder of the lifecycle lock about to.
pub calling_lem :
    (ms : List Move) (x : Option ℕ)
    → all_join ms init ≡ true
    → let s = run ms init in
      s.body ≡ calling x
      → (s.task.storage ≡ x) × (is_set s.task ≡ true) × (changes s.holder ≡ false)
unfolding init
calling_lem ms x j h =
    let ok = run-IsSound ms init j init-IsSound in
    let held = run-Held ms init j init-IsSound tt in ground arith

-- Once the destructor has run, or where it destroys the task, there is no worker thread.
pub over_lem :
    (ms : List Move)
    → all_join ms init ≡ true
    → let s = run ms init in
      (s.holder ≡ over) ⊎ (s.holder ≡ dropping) → (s.engine.task ≡ none) × (s.body ≡ outside)
over_lem ms j h = let ok = run-IsSound ms init j init-IsSound in ground arith
