-- ===== src/Worker/Tests.antt =====
-- A start, a stop and what comes between, and the laws there.
use c_wrapper.Prelude.{
  ◌≡◌, refl, true, false, List, [], ◌∷◌, ◌||◌, if◌then◌else◌, leb, ◌==◌, inl, ◌++◌, ap,
}
use c_wrapper.Worker.{
  goes_on, returns, sleeps, sleeping, idle, start, stop, free, testing, cleaning, started, none,
  working, init, is_starting, is_running, is_ended, should_run, answered, request, tells,
  after_notify, control_step, task_step, Move, controls, tasks, begins, requests, step, run,
}
use c_wrapper.Worker.Invariant.{is_alive}
use c_wrapper.Worker.Safety.{wakes_lem, cleanup_lem, stops_lem, asked_lem, started_lem}
use c_wrapper.Worker.Stop.{is_ending, ending, stop_completes}

-- `start` up to its return
abbrev starts : List Move
starts =
    begins start
    ∷ controls true
    ∷ controls true
    ∷ controls true
    ∷ controls true
    ∷ controls true
    ∷ tasks goes_on
    ∷ controls true
    ∷ []

-- `run` is under way
abbrev works : List Move
works = starts ++ (controls true ∷ tasks goes_on ∷ [])

-- `stop` has requested
abbrev stops_it : List Move
stops_it = works ++ (begins stop ∷ controls true ∷ controls true ∷ [])

-- `stop` has joined
abbrev joined : List Move
joined =
    stops_it
    ++ (tasks returns
        ∷ tasks returns
        ∷ controls true
        ∷ controls true
        ∷ controls true
        ∷ controls true
        ∷ [])

starts-started : (run starts init).control ≡ started true
unfolding run step control_step task_step init
starts-started = refl

works-working : (run works init).task ≡ working
unfolding run step control_step task_step init
works-working = refl

stops_it-testing : (run stops_it init).control ≡ testing stop
unfolding run step control_step task_step tells answered request after_notify init
stops_it-testing = refl

stops_it-asked : (run stops_it init).stop_requested ≡ true
unfolding run step control_step task_step tells answered request after_notify init
stops_it-asked = refl

joined-cleaning : (run joined init).control ≡ cleaning false
unfolding run step control_step task_step tells answered request after_notify init
joined-cleaning = refl

started_lem_test :
    let s = run starts init in
    (s.has_worker ≡ true)
    × (s.start_released ≡ true)
    × ((is_alive s.task || is_ended s.task) ≡ true)
started_lem_test = started_lem starts starts-started

stops_lem_test :
    let s = run joined init in
    (if is_starting s.state || is_running s.state then s.stops == 0 else leb s.stops 1) ≡ true
stops_lem_test = stops_lem joined

asked_lem_test : should_run (run stops_it init) ≡ false
asked_lem_test = asked_lem stops_it stops_it-asked

cleanup_lem_example :
    let s = run joined init in (s.task ≡ none) × (s.requesters ≡ 0) × (s.callbacks ≡ 0)
cleanup_lem_example = cleanup_lem joined false (inl joined-cleaning)

stop_completes_example :
    let s' = run ending (run stops_it init) in
    (s'.control ≡ free) × (s'.state ≡ idle) × (s'.task ≡ none) × (s'.has_worker ≡ false)
stop_completes_example = stop_completes stops_it (ap is_ending stops_it-testing)

-- `run` sleeps when the stop is requested
abbrev stopped_asleep : List Move
stopped_asleep = works ++ (tasks sleeps ∷ requests ∷ [])

stopped_asleep-sleeping : (run stopped_asleep init).task ≡ sleeping
unfolding run step control_step task_step tells answered request after_notify init
stopped_asleep-sleeping = refl

stopped_asleep-asked : (run stopped_asleep init).stop_requested ≡ true
unfolding run step control_step task_step tells answered request after_notify init
stopped_asleep-asked = refl

wakes_lem_test : (task_step goes_on (run stopped_asleep init)).task ≡ working
wakes_lem_test = wakes_lem stopped_asleep goes_on stopped_asleep-sleeping stopped_asleep-asked
