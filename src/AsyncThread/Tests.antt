-- ===== src/AsyncThread/Tests.antt =====
-- A start, a stop and a second start, and the laws there.
use c_wrapper.Prelude.{◌≡◌, ◌⊎◌, ◌+◌, refl, true, false, List, [], ◌∷◌, ◌++◌, Option, some, inl, ap}
use c_wrapper.Worker.{none, free, idle, goes_on, returns, should_run}
use c_wrapper.Worker as Engine
use c_wrapper.AsyncThread.{
  outside, calling, checking, closing, returned, over, starts, destroys, init, step, run, holder_at,
  launched_at, task_at, engine_at, begin_at, enters, body_at, store, Move, controls, tasks, holds,
  begins,
}
use c_wrapper.FixedFunction.{is_set, construct, assign, move_from, reset}
use c_wrapper.AsyncThread.Invariant.{all_join}
use c_wrapper.AsyncThread.Safety.{calling_lem, over_lem, changes}
use c_wrapper.FixedFunction.Ownership.{holds as lives, made, ended}
use c_wrapper.AsyncThread.Ownership.{is_over, owned_lem}
use c_wrapper.AsyncThread.Finish.{closes, stopping, stop_lem}
use c_wrapper.AsyncThread.Restart.{given, starting, start_lem}

-- `start(5)` on a new object, until the callable is called
abbrev first_call : List Move
first_call =
    begins (starts 5)
    ∷ holds
    ∷ holds
    ∷ controls true
    ∷ controls true
    ∷ holds
    ∷ holds
    ∷ holds
    ∷ controls true
    ∷ controls true
    ∷ controls true
    ∷ controls true
    ∷ controls true
    ∷ tasks goes_on
    ∷ controls true
    ∷ holds
    ∷ tasks goes_on
    ∷ tasks goes_on
    ∷ []

-- its end, and a second start
abbrev second_start : List Move
second_start =
    first_call ++ (holds ∷ tasks returns ∷ tasks returns ∷ tasks returns ∷ begins (starts 6) ∷ [])

-- the destructor while the callable runs
abbrev ending : List Move
ending =
    first_call
    ++ (holds
        ∷ begins destroys
        ∷ holds
        ∷ controls true
        ∷ controls true
        ∷ tasks returns
        ∷ tasks returns
        ∷ tasks returns
        ∷ controls true
        ∷ controls true
        ∷ controls true
        ∷ controls true
        ∷ controls true
        ∷ controls true
        ∷ holds
        ∷ holds
        ∷ [])

first_call-calling : (run first_call init).body ≡ calling (some 5)
unfolding run step init holder_at launched_at task_at engine_at begin_at enters body_at store
    Engine.init Engine.step Engine.control_step Engine.control_at Engine.task_step Engine.tells
    Engine.request Engine.answered Engine.after_notify Engine.after_join should_run construct assign
    move_from reset
first_call-calling = refl

first_call-all_join : all_join first_call init ≡ true
unfolding all_join run step init holder_at launched_at task_at engine_at begin_at enters body_at
    store Engine.init Engine.step Engine.control_step Engine.control_at Engine.task_step
    Engine.tells Engine.request Engine.answered Engine.after_notify Engine.after_join should_run
    construct assign move_from reset
first_call-all_join = refl

calling_lem_example :
    let s = run first_call init in
    (s.task.storage ≡ some 5) × (is_set s.task ≡ true) × (changes s.holder ≡ false)
calling_lem_example = calling_lem first_call (some 5) first_call-all_join first_call-calling

ending-over : (run ending init).holder ≡ over
unfolding run step init holder_at launched_at task_at engine_at begin_at enters body_at store
    Engine.init Engine.step Engine.control_step Engine.control_at Engine.task_step Engine.tells
    Engine.request Engine.answered Engine.after_notify Engine.after_join should_run construct assign
    move_from reset
ending-over = refl

ending-all_join : all_join ending init ≡ true
unfolding all_join run step init holder_at launched_at task_at engine_at begin_at enters body_at
    store Engine.init Engine.step Engine.control_step Engine.control_at Engine.task_step
    Engine.tells Engine.request Engine.answered Engine.after_notify Engine.after_join should_run
    construct assign move_from reset
ending-all_join = refl

over_lem_test : let s = run ending init in (s.engine.task ≡ none) × (s.body ≡ outside)
over_lem_test = over_lem ending ending-all_join (inl ending-over)

second_start-checking : (run second_start init).holder ≡ checking 6
unfolding run step init holder_at launched_at task_at engine_at begin_at enters body_at store
    Engine.init Engine.step Engine.control_step Engine.control_at Engine.task_step Engine.tells
    Engine.request Engine.answered Engine.after_notify Engine.after_join should_run construct assign
    move_from reset
second_start-checking = refl

second_start-all_join : all_join second_start init ≡ true
unfolding all_join run step init holder_at launched_at task_at engine_at begin_at enters body_at
    store Engine.init Engine.step Engine.control_step Engine.control_at Engine.task_step
    Engine.tells Engine.request Engine.answered Engine.after_notify Engine.after_join should_run
    construct assign move_from reset
second_start-all_join = refl

second_start-stopped : should_run (run second_start init).engine ≡ false
unfolding run step init holder_at launched_at task_at engine_at begin_at enters body_at store
    Engine.init Engine.step Engine.control_step Engine.control_at Engine.task_step Engine.tells
    Engine.request Engine.answered Engine.after_notify Engine.after_join should_run construct assign
    move_from reset
second_start-stopped = refl

start_lem_example :
    let s = run second_start init in
    let s' = run (starting s.holder) s in
    (s'.holder ≡ returned true) × (s'.body ≡ calling (some 6)) × (should_run s'.engine ≡ true)
start_lem_example =
    start_lem second_start 6 second_start-all_join (ap given second_start-checking)
      (rw (second_start-checking, second_start-stopped) refl)

owned_lem_example :
    let s = run ending init in
    (lives 5 s.task.storage + ended 5 s.events ≡ made 5 s.events)
    × ((is_over s.holder ≡ false) ⊎ (ended 5 s.events ≡ made 5 s.events))
owned_lem_example = owned_lem ending 5

-- the destructor takes the lock while the callable runs
abbrev closing_moves : List Move
closing_moves = first_call ++ (holds ∷ begins destroys ∷ [])

closing_moves-closing : (run closing_moves init).holder ≡ closing true
unfolding run step init holder_at launched_at task_at engine_at begin_at enters body_at store
    Engine.init Engine.step Engine.control_step Engine.control_at Engine.task_step Engine.tells
    Engine.request Engine.answered Engine.after_notify Engine.after_join should_run construct assign
    move_from reset
closing_moves-closing = refl

closing_moves-all_join : all_join closing_moves init ≡ true
unfolding all_join run step init holder_at launched_at task_at engine_at begin_at enters body_at
    store Engine.init Engine.step Engine.control_step Engine.control_at Engine.task_step
    Engine.tells Engine.request Engine.answered Engine.after_notify Engine.after_join should_run
    construct assign move_from reset
closing_moves-all_join = refl

stop_lem_example :
    let s = run closing_moves init in
    let s' = run (stopping s.holder) s in
    (s'.holder ≡ over)
    × (s'.engine.control ≡ free)
    × (s'.engine.state ≡ idle)
    × (s'.engine.task ≡ none)
    × (s'.task.storage ≡ Option.none)
stop_lem_example =
    stop_lem closing_moves true closing_moves-all_join (ap closes closing_moves-closing)
