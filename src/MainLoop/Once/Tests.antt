-- ===== src/MainLoop/Once/Tests.antt =====
-- A call of `loopOnce`.
use c_wrapper.Prelude.{
  ℕ, ◌≡◌, refl, length, arith, true, false, Option, none, some, List, [], ◌∷◌, ◌++◌, map,
}
use c_wrapper.CircularQueue
use c_wrapper.CircularQueue.Invariant.{init-IsValid}
use c_wrapper.FixedFunction.{empty}
use c_wrapper.TimerList.{contains}
use c_wrapper.MainLoop.Wakeup.{max_functions}
use c_wrapper.MainLoop.Functions.Held.{Holds}
use c_wrapper.MainLoop.Timers.{Setup, Turn}
use c_wrapper.MainLoop.Timers.Round.{IsSlow}
use c_wrapper.MainLoop.Dispatch.{Event, watched, command, events}
use c_wrapper.MainLoop.Dispatch.Calls.{Answers, all_handled, stopped, reads, any_watcher, ends}
use c_wrapper.MainLoop.Pipe.{byte, would_block, terminate_code}
use c_wrapper.MainLoop.Once.{LoopState, Round, Report, loop_once}
use c_wrapper.MainLoop.Once.Served.{quieted, Served, loop_once_lem}
use c_wrapper.MainLoop.Once.Rounds.{IsQuiet}

no_functions-Holds : Holds (CircularQueue.init max_functions empty) []
unfolding CircularQueue.init
no_functions-Holds = record {
  valid = init-IsValid max_functions empty (omega arith) (omega arith);
  same = refl;
}

abbrev every_100_ms : ℕ → Setup
every_100_ms t = record { interval = 100; repeat = true; handler = true }

every_100_ms-IsSlow : IsSlow every_100_ms 1000 1040
every_100_ms-IsSlow = record { long = λ t. omega arith; small = λ t. omega arith }

abbrev turn_at : ℕ → Turn
turn_at now = record {
  taken_at = now;
  executed_at = now;
  looked_at = now;
  answer = true;
  stopped = false;
}

abbrev start_state : LoopState
start_state = record {
  queue = CircularQueue.init max_functions empty;
  timers = record { expiry = λ t. 1000; list = 1 ∷ [] };
}

abbrev option_timers : Option Report → List ℕ
option_timers none = []
option_timers (some r) = r.state.timers.list

abbrev ready : List Event
ready = watched 7 (some 4) false true ∷ []

ready_answers : Answers (events ready) true (record { watcher = 7; fd = 4 } ∷ [])
ready_answers = all_handled ready (any_watcher, tt)

-- Two functions are posted during the first call of `runFunctions`, another one by the timer 1,
-- which is due.
loop_once_lem_example :
    let r : Round = record {
      posts = map quieted (((5 ∷ []) ∷ (6 ∷ []) ∷ []) ∷ []) ++ quieted [] ∷ quieted [] ∷ [];
      turns = turn_at 1000 ∷ turn_at 1010 ∷ turn_at 1020 ∷ turn_at 1030 ∷ [];
      late = 9 ∷ [];
      answer = events ready;
    } in
    Served 1000 1040 start_state [] r true
      (record { watcher = 7; fd = 4 } ∷ [])
      (loop_once every_100_ms true true start_state r)
unfolding contains
loop_once_lem_example =
    loop_once_lem every_100_ms 1000 1040 (CircularQueue.init max_functions empty) [] (λ t. 1000)
      (1 ∷ []) (((5 ∷ []) ∷ (6 ∷ []) ∷ []) ∷ [])
      (turn_at 1000 ∷ turn_at 1010 ∷ turn_at 1020 ∷ turn_at 1030 ∷ []) (9 ∷ []) (events ready) true
      (record { watcher = 7; fd = 4 } ∷ []) no_functions-Holds every_100_ms-IsSlow (ground arith)
      (tt, tt) (refl, tt) (omega arith) ready_answers

-- The command to terminate is read, or the flag is set.
abbrev stop_command : Event
stop_command = command (byte terminate_code ∷ would_block ∷ []) true

stop_answers : Answers (events (stop_command ∷ [])) false []
stop_answers =
    stopped [] stop_command false [] tt
      (ends (reads (byte terminate_code ∷ []) would_block [] refl refl) refl refl)

-- No timer, a function posted while the first is called, and a later one, posted by the watcher 7.
abbrev idle_state : LoopState
idle_state = record {
  queue = CircularQueue.init max_functions empty;
  timers = record { expiry = λ t. 1000; list = [] };
}

abbrev some_turns : List Turn
some_turns = turn_at 1000 ∷ turn_at 1010 ∷ []

abbrev first_round : Round
first_round = record {
  posts = map quieted (((5 ∷ []) ∷ []) ∷ []) ++ quieted [] ∷ quieted [] ∷ [];
  turns = some_turns;
  late = 6 ∷ 7 ∷ [];
  answer = events ready;
}

abbrev last_round : Round
last_round = record {
  posts = map quieted (((8 ∷ []) ∷ []) ∷ []) ++ quieted [] ∷ quieted [] ∷ [];
  turns = some_turns;
  late = 9 ∷ [];
  answer = events (stop_command ∷ []);
}

last_round-IsQuiet : (s : LoopState) → length s.timers.list ≡ 0 → IsQuiet every_100_ms s last_round
last_round-IsQuiet s none_left = record {
  start = 1000;
  limit = 1040;
  posts = ((8 ∷ []) ∷ []) ∷ [];
  goes_on = false;
  watched = [];
  slow = every_100_ms-IsSlow;
  prompt = ground arith;
  enough = omega arith;
  posted = refl;
  answered = stop_answers;
}
