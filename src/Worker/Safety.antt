-- ===== src/Worker/Safety.antt =====
-- What an IWorker may rely on, in every interleaving.
use c_wrapper.Prelude.{◌≡◌, arith, Bool, true, false, List, ◌||◌, if◌then◌else◌, leb, ◌==◌, ◌⊎◌}
use c_wrapper.Worker.{
  running, stopping, undone, cleaning, started, TaskPc, none, working, sleeping, Event, init,
  is_starting, is_running, is_ended, should_run, task_at, task_step, Move, run,
}
use c_wrapper.Worker.Invariant.{init-IsSound, run-IsSound, is_alive}

-- In every interleaving, when onCleanup runs, from joinLocked or after a failed pthread_create,
-- there is no worker thread and no onStopRequested is under way.
pub cleanup_lem :
    (ms : List Move) (again : Bool)
    → let s = run ms init in
      (s.control ≡ cleaning again) ⊎ (s.control ≡ undone)
      → (s.task ≡ none) × (s.requesters ≡ 0) × (s.callbacks ≡ 0)
cleanup_lem ms again h = let v = run-IsSound ms init init-IsSound in ground arith

-- In every interleaving, onStopRequested is called at most once between two starts, and not before the
-- state leaves Starting and Running.
pub stops_lem :
    (ms : List Move)
    → let s = run ms init in
      (if is_starting s.state || is_running s.state then s.stops == 0 else leb s.stops 1) ≡ true
stops_lem ms = let v = run-IsSound ms init init-IsSound in ground arith

abbrev pub in_run : TaskPc → Bool
in_run working = true
in_run sleeping = true
in_run _ = false

-- In every interleaving, run is under way only on a worker that start prepared and released, and whose
-- state is Running or Stopping.
pub working_lem :
    (ms : List Move)
    → let s = run ms init in
      in_run s.task ≡ true
      → (s.has_worker ≡ true)
        × (s.start_released ≡ true)
        × ((s.state ≡ running) ⊎ (s.state ≡ stopping))
working_lem ms e = let v = run-IsSound ms init init-IsSound in ground arith

-- In every interleaving, a thread that sleeps in msleep wakes up at its next access once a stop has
-- been requested, and is still in run.
pub wakes_lem :
    (ms : List Move) (i : Event)
    → let s = run ms init in
      s.task ≡ sleeping → s.stop_requested ≡ true → (task_step i s).task ≡ working
unfolding task_step task_at
wakes_lem ms i e h = let v = run-IsSound ms init init-IsSound in ground arith

-- In every interleaving, while the request of a stop is noted shouldRun is false: also for a request
-- that start has not yet seen.
pub asked_lem :
    (ms : List Move) → let s = run ms init in s.stop_requested ≡ true → should_run s ≡ false
unfolding should_run
asked_lem ms e = let v = run-IsSound ms init init-IsSound in ground arith

-- In every interleaving, when start returns true its thread was released, and is on the way to run, in
-- it, or through it.
pub started_lem :
    (ms : List Move)
    → let s = run ms init in
      s.control ≡ started true
      → (s.has_worker ≡ true)
        × (s.start_released ≡ true)
        × ((is_alive s.task || is_ended s.task) ≡ true)
started_lem ms e = let v = run-IsSound ms init init-IsSound in ground arith
