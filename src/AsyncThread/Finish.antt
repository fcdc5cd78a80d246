-- ===== src/AsyncThread/Finish.antt =====
-- That a stop and the destructor go through.
use c_wrapper.Prelude.{
  ◌≡◌, refl, ap, ◌∙◌, sym, subst, arith, Bool, true, false, Option, some, none, if◌then◌else◌, List,
  [], ◌∷◌, ◌++◌,
}
use c_wrapper.Worker.{free, idle, start, stop}
use c_wrapper.Worker as Engine
use c_wrapper.FixedFunction.{reset}
use c_wrapper.AsyncThread.{
  Async, HolderPc, away, closing, closed, dropping, over, init, step, run, holder_at, Move, holds,
}
use c_wrapper.AsyncThread.Invariant.{IsSound, init-IsSound, step-IsSound, run-IsSound, all_join}
use c_wrapper.AsyncThread.Back.{run_append, backs, Back, backs_lem}
use c_wrapper.AsyncThread.Ownership.{is_over, dropped_lem}

-- A stop or the destructor is under way; the Boolean tells the destructor.
abbrev pub closes : HolderPc → Option Bool
closes (closing last) = some last
closes (closed last) = some last
closes dropping = some true
closes _ = none

-- The return of the engine's stop, and in the destructor that of `mWorkerTask`.
abbrev leaves : Bool → List Move
leaves last = holds ∷ (if last then holds ∷ [] else [])

-- What is left of it: `mThreadEngine.stop()`, with the end of the thread as the callable returns,
-- and in the destructor the destructor of `mWorkerTask`.
pub stopping : HolderPc → List Move
stopping (closing last) = holds ∷ (backs ++ leaves last)
stopping (closed last) = backs ++ leaves last
stopping _ = holds ∷ []

-- The call has returned, and the worker is idle.
pub record Closed (last : Bool) (s s' : Async) : Type 0 where
  pub holder : s'.holder ≡ (if last then over else away)
  pub control : s'.engine.control ≡ free
  pub state : s'.engine.state ≡ idle
  pub thread : s'.engine.task ≡ Engine.none
  pub task : s'.task ≡ (if last then (reset s.task).0 else s.task)

leaves_lem :
    (last : Bool) (s s₁ : Async)
    → s.holder ≡ closed last
    → Back s s₁
    → Closed last s (run (leaves last) s₁)
unfolding run step holder_at
leaves_lem true s s₁ at b =
    let at₁ : s₁.holder ≡ closed true = b.holder ∙ at in
    let free₁ = b.control in
    let stored = ap (λ t. (reset t).0) b.task in
    let idle₁ = b.state in
    let gone = b.thread in
    record {
      holder = ground arith;
      control = ground arith;
      state = ground arith;
      thread = ground arith;
      task = ground arith;
    }
leaves_lem false s s₁ at b =
    let at₁ : s₁.holder ≡ closed false = b.holder ∙ at in
    let free₁ = b.control in
    let stored = b.task in
    let idle₁ = b.state in
    let gone = b.thread in
    record {
      holder = ground arith;
      control = ground arith;
      state = ground arith;
      thread = ground arith;
      task = ground arith;
    }

closed_lem :
    (last : Bool) (s : Async)
    → s.holder ≡ closed last
    → IsSound s
    → Closed last s (run (backs ++ leaves last) s)
closed_lem last s at ok =
    rw (run_append backs (leaves last) s)
      (leaves_lem last s (run backs s) at (backs_lem s ok (ground arith)))

closing_lem :
    (last : Bool) (s : Async)
    → s.holder ≡ closing last
    → IsSound s
    → Closed last s (run (holds ∷ (backs ++ leaves last)) s)
unfolding run step holder_at
closing_lem last s at ok =
    let c = closed_lem last (step holds s) (rw at refl) (step-IsSound holds s refl ok) in
    record {
      holder = c.holder;
      control = c.control;
      state = c.state;
      thread = c.thread;
      task = c.task ∙ rw at refl;
    }

dropping_lem : (s : Async) → s.holder ≡ dropping → IsSound s → Closed true s (run (holds ∷ []) s)
unfolding run step holder_at
dropping_lem s at ok =
    let engine = ok.engine_ok in
    rw at (record {
      holder = refl;
      control = ground arith;
      state = ground arith;
      thread = ground arith;
      task = refl;
    })

stopping_lem :
    (last : Bool) (s : Async) (pc : HolderPc)
    → s.holder ≡ pc
    → closes pc ≡ some last
    → IsSound s
    → Closed last s (run (stopping pc) s)
unfolding stopping
stopping_lem last s (closing l) at e ok =
    let same : l ≡ last = ground arith in
    subst (λ k. Closed k s (run (stopping (closing l)) s)) same (closing_lem l s at ok)
stopping_lem last s (closed l) at e ok =
    let same : l ≡ last = ground arith in
    subst (λ k. Closed k s (run (stopping (closed l)) s)) same (closed_lem l s at ok)
stopping_lem true s dropping at e ok = dropping_lem s at ok
stopping_lem last s pc at e ok = ground arith

-- In every reachable state in which a stop or the destructor is under way, at any place, where no
-- pthread_join has failed: once the callable returns and where the calls of the system succeed, the
-- accesses `stopping` for its place end it, with the engine idle and no worker thread. A stop leaves
-- the task as it is; the destructor has ended the object, and no callable lives in the task.
pub stop_lem :
    (ms : List Move) (last : Bool)
    → all_join ms init ≡ true
    → let s = run ms init in
      closes s.holder ≡ some last
      → let s' = run (stopping s.holder) s in
        (s'.holder ≡ (if last then over else away))
        × (s'.engine.control ≡ free)
        × (s'.engine.state ≡ idle)
        × (s'.engine.task ≡ Engine.none)
        × (s'.task.storage ≡ (if last then none else s.task.storage))
stop_lem ms true j at =
    let s = run ms init in
    let c = stopping_lem true s s.holder refl at (run-IsSound ms init j init-IsSound) in
    let gone = sym (run_append ms (stopping s.holder) init) in
    let over_after = subst (λ x. is_over x.holder ≡ true) gone (ap is_over c.holder) in
    (
      c.holder,
      c.control,
      c.state,
      c.thread,
      subst (λ x. x.task.storage ≡ none) (sym gone)
          (dropped_lem (ms ++ stopping s.holder) over_after),
    )
stop_lem ms false j at =
    let s = run ms init in
    let c = stopping_lem false s s.holder refl at (run-IsSound ms init j init-IsSound) in
    (c.holder, c.control, c.state, c.thread, ap (λ t. t.storage) c.task)
