-- ===== src/Worker/Stop.antt =====
-- That stop, join and a stop during start come to their end.
use c_wrapper.Prelude.{
  ◌≡◌, arith, Bool, true, false, List, [], ◌∷◌, ◌++◌, ◌&&◌, ◌||◌, not, leb, ◌∙◌,
}
use c_wrapper.Worker.{
  idle, Call, start, ControlPc, free, requesting, notifying, testing, reading, joining, draining,
  cleaning, resetting, none, returns, times_out, System, init, is_exited, is_ended, reset_state,
  request, tells, counted, answered, after_join, after_notify, tested, control_at, control_step,
  work, task_at, task_step, Move, controls, tasks, answers, step, run,
}
use c_wrapper.Worker.Invariant.{IsSound, init-IsSound, run-IsSound, is_started, is_clear, is_joined}

abbrev pub is_start : Call → Bool
is_start start = true
is_start _ = false

-- A stop or a join is under way, from the request on.
abbrev pub is_ending : ControlPc → Bool
is_ending requesting = true
is_ending (notifying c) = not (is_start c)
is_ending (testing c) = not (is_start c)
is_ending (reading again) = not again
is_ending (joining again) = not again
is_ending (draining again) = not again
is_ending (cleaning again) = not again
is_ending (resetting again) = not again
is_ending _ = false

-- The thread may have to end first, or has ended, for a call past its request.
abbrev pub waits_for : (gone : System → Bool) → ControlPc → System → Bool
waits_for gone free s = is_clear s
waits_for gone (testing c) s = not (is_start c) && (is_clear s || gone s)
waits_for gone (reading again) s = not again && (is_clear s || gone s)
waits_for gone (joining again) s = not again && gone s
waits_for gone (draining again) s = not again && is_joined s && s.has_worker
waits_for gone (cleaning again) s = not again && is_joined s && not s.has_worker
waits_for gone (resetting again) s = not again && is_joined s && not s.has_worker
waits_for gone _ s = false

-- The thread has ended and was not joined.
abbrev pub has_ended : System → Bool
has_ended s = is_exited s.state && leb s.stops 1 && is_ended s.task && s.has_worker

-- The request, with onStopRequested, here or in another thread.
abbrev asks : List Move
asks = controls true ∷ controls true ∷ answers ∷ []

-- The thread goes to its end when run returns.
abbrev thread_ends : List Move
thread_ends = tasks times_out ∷ tasks returns ∷ tasks returns ∷ []

-- What is left of stop or join then.
abbrev joins : List Move
joins =
    controls true
    ∷ controls true
    ∷ controls true
    ∷ controls true
    ∷ controls true
    ∷ controls true
    ∷ []

asks_lem :
    (s : System)
    → is_ending s.control ≡ true
    → IsSound s
    → let s' = run asks s in (s'.callbacks ≡ 0) × (waits_for is_started s'.control s' ≡ true)
unfolding run step control_step control_at request tells counted answered tested reset_state
    after_join after_notify
asks_lem s e v = ground arith

thread_ends_lem :
    (s : System)
    → waits_for is_started s.control s ≡ true
    → let s' = run thread_ends s in
      (s'.callbacks ≡ s.callbacks) × (waits_for has_ended s'.control s' ≡ true)
unfolding run step task_step task_at work
thread_ends_lem s h = ground arith

joins_lem :
    (s : System)
    → waits_for has_ended s.control s ≡ true
    → s.callbacks ≡ 0
    → let s' = run joins s in
      (s'.control ≡ free) × (s'.state ≡ idle) × (s'.task ≡ none) × (s'.has_worker ≡ false)
unfolding run step control_step control_at tested reset_state after_join
joins_lem s h k = ground arith

-- What is left of a stop or a join, at most: the request and the callbacks, the end of the thread as
-- run returns, and joinLocked, where pthread_join succeeds.
abbrev pub ending : List Move
ending = asks ++ (thread_ends ++ joins)

-- In every reachable state in which stop or join is under way, from the request to the last access,
-- it can go to its end: where run and onStopRequested return and pthread_join succeeds, the twelve
-- accesses of `ending`, of which those that come too early or too late have no effect, leave the
-- worker idle, without a thread and without an IWorker.
pub stop_completes :
    (ms : List Move)
    → is_ending (run ms init).control ≡ true
    → let s' = run ending (run ms init) in
      (s'.control ≡ free) × (s'.state ≡ idle) × (s'.task ≡ none) × (s'.has_worker ≡ false)
unfolding run
stop_completes ms e =
    let s = run ms init in
    let (quiet, late) = asks_lem s e (run-IsSound ms init init-IsSound) in
    let (same, over) = thread_ends_lem (run asks s) late in
    joins_lem (run thread_ends (run asks s)) over (same ∙ quiet)
