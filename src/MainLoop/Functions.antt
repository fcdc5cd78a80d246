-- ===== src/MainLoop/Functions.antt =====
-- The posted functions of common/MainLoop.h, MainLoop.cpp: `post` and `runFunctions` on `mFunctions`.
pub mod Held
pub mod Order
mod Tests
use c_wrapper.Prelude.{ℕ, Bool, true, false, Option, none, some, List, [], ◌∷◌, ◌++◌, if◌then◌else◌}
use c_wrapper.CircularQueue.{CircularQueue}
use c_wrapper.CircularQueue
use c_wrapper.FixedFunction.{FixedFunction, empty, Event, construct, invoke, move_from, is_set}
use c_wrapper.MainLoop.Wakeup.{max_functions}

-- What `std::move` leaves of a queued function.
abbrev pub left_over : FixedFunction → FixedFunction
left_over x = (move_from empty x).1

-- `post`: the queue, and whether the loop is woken.
pub post : CircularQueue FixedFunction → ℕ → CircularQueue FixedFunction × Bool
post q f = CircularQueue.put max_functions q (construct f).0

-- Several calls of `post`, by callbacks or other threads, with those that were taken in.
pub post_all : CircularQueue FixedFunction → List ℕ → CircularQueue FixedFunction × List ℕ
post_all q [] = (q, [])
post_all q (f ∷ fs) =
    let (q', done) = post q f in
    let (q'', taken) = post_all q' fs in (q'', if done then f ∷ taken else taken)

-- `if (func) func();`, for what `get` has stored.
abbrev pub call : Option FixedFunction → List Event
call none = []
call (some x) = if is_set x then invoke x else []

-- What `runFunctions` returns and leaves: the queue, `executedAny`, the calls, and all functions that
-- were taken in meanwhile.
pub record Outcome : Type 0 where
  pub queue : CircularQueue FixedFunction
  pub executed_any : Bool
  pub events : List Event
  pub taken : List ℕ

abbrev pub preceded : List Event → List ℕ → Option Outcome → Option Outcome
preceded es fs none = none
preceded es fs (some o) = some (record o { events = es ++ o.events; taken = fs ++ o.taken })

-- The loop of `runFunctions`, given what is posted before each `mFunctions.get`; none where it has not
-- returned after these.
pub run_from : Bool → CircularQueue FixedFunction → List (List ℕ) → Option Outcome
run_from any q [] = none
run_from any q (fs ∷ later) =
    let (q', taken) = post_all q fs in
    let (q'', got, func) = CircularQueue.get max_functions empty left_over q' true in
    let rest = run_from true q'' later in
    if got
    then preceded (call func) taken rest
    else some (record { queue = q''; executed_any = any; events = []; taken = taken })

-- `runFunctions`.
pub run_functions : CircularQueue FixedFunction → List (List ℕ) → Option Outcome
unfolding run_from
run_functions q posts = run_from false q posts
