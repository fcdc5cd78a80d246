-- ===== src/AsyncThread/Restart.antt =====
-- That a start goes through and reaches the callable.
use c_wrapper.Prelude.{
  ℕ, ◌≡◌, refl, ap, ◌∙◌, arith, Bool, true, false, Option, some, none, List, [], ◌∷◌, ◌++◌, not,
}
use c_wrapper.Worker.{free, goes_on, idle, should_run, start, stop}
use c_wrapper.Worker as Engine
use c_wrapper.FixedFunction.{FixedFunction, construct, move_from, assign, reset}
use c_wrapper.AsyncThread.{
  Async, HolderPc, outside, calling, checking, clearing, cleared, assigning, store, returned, init,
  step, run, holder_at, launched_at, engine_at, task_at, body_at, enters, Move, controls, tasks,
  holds,
}
use c_wrapper.AsyncThread.Invariant.{IsSound, init-IsSound, step-IsSound, run-IsSound, all_join}
use c_wrapper.AsyncThread.Back.{run_append, backs, backs_lem}

-- From the assignment to the call of the callable.
pub launches_moves : List Move
launches_moves =
    holds
    ∷ holds
    ∷ controls true
    ∷ controls true
    ∷ controls true
    ∷ controls true
    ∷ controls true
    ∷ tasks goes_on
    ∷ controls true
    ∷ holds
    ∷ tasks goes_on
    ∷ tasks goes_on
    ∷ []

launches_lem :
    (f : ℕ) (s : Async)
    → s.holder ≡ assigning f
    → s.engine.control ≡ free
    → s.engine.state ≡ idle
    → s.engine.task ≡ Engine.none
    → s.body ≡ outside
    → (store f s.task).0.storage ≡ some f
    → (store f s.task).0.invoker ≡ true
    → let s' = run launches_moves s in
      (s'.holder ≡ returned true) × (s'.body ≡ calling (some f)) × (should_run s'.engine ≡ true)
unfolding run launches_moves step holder_at launched_at engine_at task_at enters body_at Engine.step
    Engine.control_step Engine.control_at Engine.task_step Engine.task_at Engine.work
    Engine.begin_at Engine.should_run Engine.prepared Engine.released Engine.counted Engine.tested
launches_lem f s at h i n b t k = ground arith

store_lem :
    (f : ℕ) (x : FixedFunction) → ((store f x).0.storage ≡ some f) × ((store f x).0.invoker ≡ true)
unfolding store construct move_from assign reset
store_lem f x = ground arith

-- The callable of the start under way, up to the assignment.
abbrev pub given : HolderPc → Option ℕ
given (checking f) = some f
given (clearing f) = some f
given (cleared f) = some f
given (assigning f) = some f
given _ = none

-- `start` has not found the thread running, or has not looked yet and will not.
abbrev pub may_start : HolderPc → Bool → Bool
may_start (checking f) runs = not runs
may_start _ runs = true

-- What is left of a start up to the assignment of the task and the call of it: `shouldRun`, the whole
-- of `mThreadEngine.stop()` or the rest, with the end of the last callable's thread, and
-- `mThreadEngine.start`.
pub starting : HolderPc → List Move
starting (checking f) = holds ∷ holds ∷ (backs ++ holds ∷ launches_moves)
starting (clearing f) = holds ∷ (backs ++ holds ∷ launches_moves)
starting (cleared f) = backs ++ holds ∷ launches_moves
starting _ = launches_moves

-- start returns true, the callable is called, and shouldRun is true.
abbrev pub IsLaunched : ℕ → Async → Type 0
IsLaunched f s =
    (s.holder ≡ returned true) × (s.body ≡ calling (some f)) × (should_run s.engine ≡ true)

assigning_lem :
    (f : ℕ) (s : Async) → s.holder ≡ assigning f → IsSound s → IsLaunched f (run launches_moves s)
assigning_lem f s at ok =
    let (stored, invokes) = store_lem f s.task in
    let engine = ok.engine_ok in
    launches_lem f s at (ground arith) (ground arith) (ground arith) (ground arith) stored invokes

-- The stop of the engine has returned to the start.
holds-cleared :
    (f : ℕ) (s : Async)
    → s.holder ≡ cleared f
    → s.engine.control ≡ free
    → let s' = step holds s in
      (s'.holder ≡ assigning f) × (s'.engine ≡ s.engine) × (s'.body ≡ s.body)
unfolding step holder_at
holds-cleared f s at c = ground arith

cleared_lem :
    (f : ℕ) (s : Async)
    → s.holder ≡ cleared f
    → IsSound s
    → IsLaunched f (run (backs ++ holds ∷ launches_moves) s)
unfolding run
cleared_lem f s at ok =
    let s₁ = run backs s in
    let b = backs_lem s ok (ground arith) in
    let (assigns, same, out) = holds-cleared f s₁ (b.holder ∙ at) b.control in
    let (stored, invokes) = store_lem f (step holds s₁).task in
    rw (run_append backs (holds ∷ launches_moves) s) (
      launches_lem f (step holds s₁) assigns (ap (λ e. e.control) same ∙ b.control)
        (ap (λ e. e.state) same ∙ b.state) (ap (λ e. e.task) same ∙ b.thread) (out ∙ b.body) stored
        invokes)

clearing_lem :
    (f : ℕ) (s : Async)
    → s.holder ≡ clearing f
    → IsSound s
    → IsLaunched f (run (holds ∷ (backs ++ holds ∷ launches_moves)) s)
unfolding run step holder_at
clearing_lem f s at ok = cleared_lem f (step holds s) (rw at refl) (step-IsSound holds s refl ok)

checking_lem :
    (f : ℕ) (s : Async)
    → s.holder ≡ checking f
    → should_run s.engine ≡ false
    → IsSound s
    → IsLaunched f (run (holds ∷ holds ∷ (backs ++ holds ∷ launches_moves)) s)
unfolding run step holder_at
checking_lem f s at n ok =
    clearing_lem f (step holds s) (rw (at, n) refl) (step-IsSound holds s refl ok)

starting_lem :
    (f : ℕ) (s : Async) (pc : HolderPc)
    → s.holder ≡ pc
    → given pc ≡ some f
    → may_start pc (should_run s.engine) ≡ true
    → IsSound s
    → IsLaunched f (run (starting pc) s)
unfolding starting
starting_lem f s (checking g) at e n ok =
    checking_lem f s (at ∙ ap checking (ground arith)) (ground arith) ok
starting_lem f s (clearing g) at e n ok = clearing_lem f s (at ∙ ap clearing (ground arith)) ok
starting_lem f s (cleared g) at e n ok = cleared_lem f s (at ∙ ap cleared (ground arith)) ok
starting_lem f s (assigning g) at e n ok = assigning_lem f s (at ∙ ap assigning (ground arith)) ok
starting_lem f s pc at e n ok = ground arith

-- In every reachable state in which a start holds the lifecycle lock and has not assigned the task
-- yet, with the thread not running if it has still to look, where no pthread_join has failed: once
-- the last callable returns and where the calls of the system succeed, the accesses `starting` for
-- its place lead to the call of the new callable. start then returns true, and shouldRun is true.
pub start_lem :
    (ms : List Move) (f : ℕ)
    → all_join ms init ≡ true
    → let s = run ms init in
      given s.holder ≡ some f
      → may_start s.holder (should_run s.engine) ≡ true
      → let s' = run (starting s.holder) s in
        (s'.holder ≡ returned true) × (s'.body ≡ calling (some f)) × (should_run s'.engine ≡ true)
start_lem ms f j at n =
    let s = run ms init in starting_lem f s s.holder refl at n (run-IsSound ms init j init-IsSound)
