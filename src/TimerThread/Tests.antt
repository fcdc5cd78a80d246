-- ===== src/TimerThread/Tests.antt =====
-- Runs of the timer thread.
use c_wrapper.Prelude.{
  ◌≡◌, refl, arith, true, false, some, List, [], ◌∷◌, ◌++◌, ◌+◌, ◌-◌, ◌*◌, length,
}
use c_wrapper.TimerThread.{init, set_handler, start, timeout, Turn, run}
use c_wrapper.TimerThread.Schedule.{clamp, timeout_lem, long_interval, on_time, repeating, run_lem}

timeout_lem_test : timeout (repeating 1000 50) 1020 ≡ clamp (1000 + 50 - 1020)
timeout_lem_test = timeout_lem (repeating 1000 50) 1020 (omega arith) (omega arith) (omega arith)

-- Thirty days.
long_interval_test : timeout (start 2592000000 true 5000 init) 5000 ≡ 1
long_interval_test =
    long_interval init 2592000000 5000 true (omega arith) (omega arith) (omega arith)

-- The second round is late.
abbrev rounds : List Turn
rounds =
    record { runs = true; now = 1000; stays = true; answer = true }
    ∷ record { runs = true; now = 1130; stays = true; answer = true }
    ∷ []

abbrev stopped : Turn
stopped = record { runs = false; now = 1200; stays = true; answer = true }

run_lem_example :
    run (start 100 true 1000 (set_handler true init)) (rounds ++ stopped ∷ [])
    ≡ some (repeating (1000 + length rounds * 100) 100, on_time 1000 100 0 rounds)
run_lem_example =
    run_lem init 100 1000 rounds stopped [] (omega arith) (omega arith)
      (refl, refl, refl, omega arith, (refl, refl, refl, omega arith, tt)) refl
