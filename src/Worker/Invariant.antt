-- ===== src/Worker/Invariant.antt =====
-- What each thread may take for granted of the worker's state.
use c_wrapper.Prelude.{
  ℕ, ◌+◌, ◌≡◌, refl, arith, Bool, true, false, List, [], ◌∷◌, ◌&&◌, ◌||◌, not, if◌then◌else◌, leb,
  ◌==◌,
}
use c_wrapper.Worker.{
  ThreadState, running, stopping, exited, Call, ControlPc, free, initialising, preparing, creating,
  undoing, undone, awaiting, notifying, joining, draining, cleaning, resetting, started, TaskPc,
  none, entering, waiting, working, sleeping, Event, leaving, System, init, is_idle, is_starting,
  is_exited, is_ended, reset_state, prepared, counted, answered, request, tells, released,
  after_join, after_notify, tested, control_at, control_step, work, task_at, task_step, begin_at,
  Move, controls, tasks, begins, requests, answers, step, run,
}

-- No thread, and nothing set.
abbrev pub is_clear : System → Bool
is_clear s =
    is_idle s.state
    && not s.has_worker
    && not s.stop_requested
    && leb s.stops 1
    && (elim s.task [ none ↦ true | _ ↦ false ])

-- The thread was released and has not ended.
abbrev pub is_alive : TaskPc → Bool
is_alive waiting = true
is_alive working = true
is_alive sleeping = true
is_alive leaving = true
is_alive _ = false

-- A worker that has been started, with the number of times that it was told to stop.
abbrev pub is_active : ThreadState → TaskPc → ℕ → Bool → Bool
is_active running t stops asked = is_alive t && stops == 0 && not asked
is_active stopping t stops asked = is_alive t && stops == 1 && asked
is_active exited t stops asked = is_ended t && leb stops 1
is_active _ t stops asked = false

abbrev pub is_started : System → Bool
is_started s =
    is_active s.state s.task s.stops s.stop_requested
    && s.has_worker
    && s.thread_ready
    && s.start_released

-- While `start` has stored Starting and created no thread.
abbrev pub is_prepared : System → Bool
is_prepared s =
    is_starting s.state
    && s.has_worker
    && s.stops == 0
    && not s.start_released
    && not s.thread_ready
    && (elim s.task [ none ↦ true | _ ↦ false ])

-- While `start` waits for the thread.
abbrev pub is_awaited : System → Bool
is_awaited s =
    is_starting s.state
    && s.has_worker
    && s.stops == 0
    && not s.start_released
    && (elim s.task [ entering ↦ not s.thread_ready | waiting ↦ s.thread_ready | _ ↦ false ])

-- After `pthread_join`.
abbrev pub is_joined : System → Bool
is_joined s = is_exited s.state && leb s.stops 1 && (elim s.task [ none ↦ true | _ ↦ false ])

abbrev pub fits : ControlPc → System → Bool
fits initialising s = is_prepared s
fits preparing s = is_prepared s
fits creating s = is_prepared s
fits (undoing cleans) s = is_prepared s
fits undone s = is_clear s
fits awaiting s = is_awaited s
fits (notifying c) s = is_started s
fits (joining again) s = is_started s
fits (draining again) s = is_joined s && s.has_worker
fits (cleaning again) s = is_joined s && s.callbacks == 0 && not s.has_worker
fits (started true) s = is_started s
fits (resetting again) s = is_joined s && s.callbacks == 0 && not s.has_worker
fits _ s = is_clear s || is_started s

-- The threads in `onStopRequested`.
abbrev pub in_callback : ControlPc → ℕ → ℕ
in_callback (notifying c) n = n + 1
in_callback _ n = n

-- Where `onStopRequested` may be running at all.
abbrev pub tells_of_stop : ThreadState → Bool
tells_of_stop stopping = true
tells_of_stop exited = true
tells_of_stop _ = false

pub record IsSound (s : System) : Type 0 where
  pub state_ok : fits s.control s ≡ true
  pub counted_ok : s.callbacks ≡ in_callback s.control s.requesters
  pub told : (if tells_of_stop s.state then leb s.callbacks s.stops else s.callbacks == 0) ≡ true

pub init-IsSound : IsSound init
unfolding init
init-IsSound = record { state_ok = refl; counted_ok = refl; told = refl }

control_at-IsSound :
    (pc : ControlPc) (ok : Bool) (s : System)
    → s.control ≡ pc
    → IsSound s
    → IsSound (control_at pc ok s)
unfolding control_at tested prepared released counted answered request tells reset_state after_join
    after_notify
control_at-IsSound free ok s e v = ground arith
control_at-IsSound pc ok s e v = ground arith

task_at-IsSound :
    (pc : TaskPc) (i : Event) (s : System) → s.task ≡ pc → IsSound s → IsSound (task_at pc i s)
unfolding task_at work
task_at-IsSound none i s e v = v
task_at-IsSound pc i s e v = ground arith

begin_at-IsSound :
    (pc : ControlPc) (c : Call) (s : System)
    → s.control ≡ pc
    → IsSound s
    → IsSound (begin_at pc c s)
unfolding begin_at
begin_at-IsSound free c s e v = ground arith
begin_at-IsSound pc c s e v = v

requests-IsSound :
    (s : System)
    → IsSound s
    → IsSound
        (record (request s) { requesters = if tells s then s.requesters + 1 else s.requesters })
unfolding request tells counted
requests-IsSound s v = ground arith

-- Every access of any thread keeps the invariant.
pub step-IsSound : (m : Move) (s : System) → IsSound s → IsSound (step m s)
unfolding step control_step task_step request tells counted answered
step-IsSound (controls ok) s v = control_at-IsSound s.control ok s refl v
step-IsSound (tasks i) s v = task_at-IsSound s.task i s refl v
step-IsSound (begins c) s v = begin_at-IsSound s.control c s refl v
step-IsSound requests s v = requests-IsSound s v
step-IsSound answers s v = ground arith

pub run-IsSound : (ms : List Move) (s : System) → IsSound s → IsSound (run ms s)
unfolding run
run-IsSound [] s v = v
run-IsSound (m ∷ ms) s v = run-IsSound ms (step m s) (step-IsSound m s v)
