-- ===== src/Worker/Sleep/Tests.antt =====
-- Sleeps on either thread.
use c_wrapper.Prelude.{◌≡◌, ◌≤◌, refl, ◌^◌, ◌-◌, true, false, List, [], ◌∷◌, none, some, ◌⊎◌, arith}
use c_wrapper.Worker.{
  init, begins, controls, tasks, goes_on, start, working, Move, is_running, run, step, control_step,
  task_step,
}
use c_wrapper.Worker.Sleep.{
  request_of, sleep, msleep, is_current_thread, naps, waits, no_pause, NapEnd, finished,
  interrupted, nap, largest_int,
}
use c_wrapper.Worker.Sleep.Times.{slept, Documented, sleep_lem, inside_lem}
use c_wrapper.SysTime.{Timespec}

-- a sleep of two seconds that is interrupted after one
abbrev twice : List NapEnd
twice = interrupted (request_of 1000) ∷ finished ∷ []

sleep_lem_example :
    (sleep 2 ≡ some 2000)
    × (2000 ≤ largest_int)
    × (msleep false init 2000 ≡ naps (request_of 2000))
    × ((asked : List Timespec) × (nap twice (request_of 2000) ≡ some asked)
        × (slept twice asked ≡ 2000000000))
unfolding Documented
sleep_lem_example = sleep_lem 2 init twice (omega arith) (omega arith) (omega arith, tt)

-- up to the call of `run`
abbrev works : List Move
works =
    begins start
    ∷ controls true
    ∷ controls true
    ∷ controls true
    ∷ controls true
    ∷ controls true
    ∷ tasks goes_on
    ∷ controls true
    ∷ tasks goes_on
    ∷ []

works-working : (run works init).task ≡ working
unfolding run step control_step task_step init
works-working = refl

inside_lem_test :
    let s = run works init in
    (is_current_thread true s ≡ true)
    × ((msleep true s 5 ≡ no_pause) ⊎ ((msleep true s 5 ≡ waits 5) × (is_running s.state ≡ true)))
inside_lem_test = inside_lem works 5 (rw works-working refl)

largest_sleep : sleep (2 ^ 31 - 1) ≡ some 2147483000
unfolding sleep
largest_sleep = refl

negative_sleep : sleep (2 ^ 32 - 5) ≡ none
unfolding sleep
negative_sleep = refl
