-- ===== src/AsyncThread/Back.antt =====
-- That a stop of the engine goes through, wherever it is.
use c_wrapper.Prelude.{◌≡◌, ◌∙◌, arith, true, List, [], ◌∷◌, ◌++◌, refl}
use c_wrapper.Worker.{free, times_out, returns, idle, none}
use c_wrapper.Worker as Engine
use c_wrapper.Worker.Invariant as Sound
use c_wrapper.Worker.Stop.{waits_for, has_ended}
use c_wrapper.Worker.Owner.{is_in_stop}
use c_wrapper.AsyncThread.{
  Async, outside, step, run, engine_at, task_at, body_at, enters, Move, controls, tasks,
}
use c_wrapper.AsyncThread.Invariant.{IsSound, run-IsSound, all_join, is_within}

pub run_append : (ms ns : List Move) (s : Async) → run (ms ++ ns) s ≡ run ns (run ms s)
unfolding run
run_append [] ns s = refl
run_append (m ∷ ms) ns s = run_append ms ns (step m s)

-- `requestStop`, with `onStopRequested`.
asks : List Move
asks = controls true ∷ controls true ∷ []

-- The thread of the last callable comes to its end: `run` returns from wherever it is.
thread_ends : List Move
thread_ends =
    tasks times_out
    ∷ tasks returns
    ∷ tasks returns
    ∷ tasks returns
    ∷ tasks returns
    ∷ tasks returns
    ∷ []

-- `joinLocked`.
joins : List Move
joins =
    controls true
    ∷ controls true
    ∷ controls true
    ∷ controls true
    ∷ controls true
    ∷ controls true
    ∷ []

-- What is left of a stop of the engine: the request, the end of the thread as the callable returns,
-- and the join.
pub backs : List Move
unfolding asks thread_ends joins
backs = asks ++ (thread_ends ++ joins)

asks_lem :
    (s : Async)
    → is_in_stop s.engine.control s.engine.task ≡ true
    → IsSound s
    → let s' = run asks s in
      (s'.engine.callbacks ≡ 0)
      × (waits_for Sound.is_started s'.engine.control s'.engine ≡ true)
      × (s'.holder ≡ s.holder)
      × (s'.task ≡ s.task)
unfolding run asks step engine_at Engine.step Engine.control_step Engine.control_at Engine.request
    Engine.tells Engine.counted Engine.answered Engine.reset_state Engine.after_join
    Engine.after_notify Engine.tested
asks_lem s at ok = ground arith

asks-all_join :
    (s : Async) → is_in_stop s.engine.control s.engine.task ≡ true → all_join asks s ≡ true
unfolding all_join asks
asks-all_join s at = ground arith

thread_ends_lem :
    (s : Async)
    → is_within s.engine.task s.body ≡ true
    → waits_for Sound.is_started s.engine.control s.engine ≡ true
    → let s' = run thread_ends s in
      (s'.engine.callbacks ≡ s.engine.callbacks)
      × (waits_for has_ended s'.engine.control s'.engine ≡ true)
      × (s'.holder ≡ s.holder)
      × (s'.task ≡ s.task)
      × (s'.body ≡ outside)
unfolding run thread_ends step task_at enters body_at Engine.step Engine.task_step Engine.task_at
    Engine.work
thread_ends_lem s w h = ground arith

joins_lem :
    (s : Async)
    → waits_for has_ended s.engine.control s.engine ≡ true
    → s.engine.callbacks ≡ 0
    → let s' = run joins s in
      (s'.engine.control ≡ free)
      × (s'.engine.state ≡ idle)
      × (s'.engine.task ≡ none)
      × (s'.holder ≡ s.holder)
      × (s'.task ≡ s.task)
      × (s'.body ≡ s.body)
unfolding run joins step engine_at Engine.step Engine.control_step Engine.control_at Engine.tested
    Engine.reset_state Engine.after_join
joins_lem s h k = ground arith

-- The stop of the engine has returned, and nothing else has changed.
pub record Back (s s' : Async) : Type 0 where
  pub control : s'.engine.control ≡ free
  pub state : s'.engine.state ≡ idle
  pub thread : s'.engine.task ≡ none
  pub holder : s'.holder ≡ s.holder
  pub task : s'.task ≡ s.task
  pub body : s'.body ≡ outside

pub backs_lem :
    (s : Async)
    → IsSound s
    → is_in_stop s.engine.control s.engine.task ≡ true
    → Back s (run backs s)
unfolding backs
backs_lem s ok at =
    let s₁ = run asks s in
    let s₂ = run thread_ends s₁ in
    let (quiet, late, held, stored) = asks_lem s at ok in
    let (same, over, held', stored', out) =
      thread_ends_lem s₁ (run-IsSound asks s (asks-all_join s at) ok).within late in
    let (f, i, n, held'', stored'', out') = joins_lem s₂ over (same ∙ quiet) in
    rw (run_append asks (thread_ends ++ joins) s, run_append thread_ends joins s₁)
      (record {
        control = f;
        state = i;
        thread = n;
        holder = held'' ∙ held' ∙ held;
        task = stored'' ∙ stored' ∙ stored;
        body = out' ∙ out;
      })
