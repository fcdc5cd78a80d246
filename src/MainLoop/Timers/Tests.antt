-- ===== src/MainLoop/Timers/Tests.antt =====
-- A round of the timers.
use c_wrapper.Prelude.{ℕ, refl, arith, true, false, List, [], ◌∷◌, if◌then◌else◌, ◌==◌}
use c_wrapper.MainLoop.Timers.{Setup, Timers, Turn, run_round}
use c_wrapper.MainLoop.Timers.Counts.{Ended}
use c_wrapper.MainLoop.Timers.Round.{IsSlow, run_round_lem}
use c_wrapper.TimerList.{contains}

abbrev every_100_ms : ℕ → Setup
every_100_ms t = record { interval = 100; repeat = true; handler = true }

-- Timers 1 and 2 are due at the start, and timer 3 is not.
abbrev expiries : ℕ → ℕ
expiries t = if t == 3 then 2000 else 1000

abbrev turn_at : ℕ → Turn
turn_at now = record {
  taken_at = now;
  executed_at = now;
  looked_at = now;
  answer = true;
  stopped = false;
}

abbrev turns : List Turn
turns =
    turn_at 1000
    ∷ turn_at 1010
    ∷ turn_at 1020
    ∷ turn_at 1030
    ∷ turn_at 1040
    ∷ turn_at 1050
    ∷ turn_at 1060
    ∷ turn_at 1070
    ∷ []

every_100_ms-IsSlow : IsSlow every_100_ms 1000 1070
every_100_ms-IsSlow = record { long = λ t. omega arith; small = λ t. omega arith }

run_round_lem_example :
    let s : Timers = record { expiry = expiries; list = 1 ∷ 2 ∷ 3 ∷ [] } in
    Ended 1000 1070 s (run_round every_100_ms s turns)
unfolding contains
run_round_lem_example =
    run_round_lem every_100_ms 1000 1070 expiries (1 ∷ 2 ∷ 3 ∷ []) turns every_100_ms-IsSlow
      (ground arith) (ground arith) (refl, (refl, (refl, tt))) (omega arith)
