-- ===== src/TimerThread.antt =====
-- common/TimerThread.h, TimerThread.cpp: a timer on a thread of its own. The 64-bit `mStartTime` is
-- its value; the `int` `mIntervalMs` is its bits, below 2^32.
pub mod Schedule
mod Tests
use c_wrapper.Prelude.{
  ℕ, ◌+◌, ◌-◌, ◌%◌, ◌^◌, Bool, true, false, Option, none, some, List, [], ◌∷◌, ◌++◌, ◌&&◌, ◌||◌,
  not, if◌then◌else◌, ltb, leb, ◌==◌,
}

-- `mRepeat`, `mStartTime`, `mIntervalMs`, and whether `mHandler` is set.
pub record TimerThread : Type 0 where
  pub repeat : Bool
  pub start_time : ℕ
  pub interval : ℕ
  pub handler : Bool

abbrev pub init : TimerThread
init = record { repeat = false; start_time = 0; interval = 0; handler = false }

-- `setInterval`, `getInterval`, `setRepeat`, `setHandler`: a `uint32_t` is stored as an `int`.
abbrev pub set_interval : ℕ → TimerThread → TimerThread
set_interval msec s = record s { interval = msec % 2 ^ 32 }

abbrev pub set_repeat : Bool → TimerThread → TimerThread
set_repeat repeat s = record s { repeat = repeat }

abbrev pub set_handler : Bool → TimerThread → TimerThread
set_handler handler s = record s { handler = handler }

-- What `start` and `restart` store between `mThread.stop()` and `mThread.start(*this)`, at the tick
-- count.
pub start : ℕ → Bool → ℕ → TimerThread → TimerThread
start msec repeat now s = record s { repeat = repeat; start_time = now; interval = msec % 2 ^ 32 }

pub restart : ℕ → TimerThread → TimerThread
restart now s = record s { start_time = now }

-- The `int` in 64 bits, its sign kept.
abbrev pub int_max : ℕ
int_max = 2 ^ 31 - 1

abbrev pub sign_extend : ℕ → ℕ
sign_extend x = if ltb int_max x then x + (2 ^ 64 - 2 ^ 32) else x

-- `mStartTime + mIntervalMs`.
abbrev pub expire_time : TimerThread → ℕ
expire_time s = (s.start_time + sign_extend s.interval) % 2 ^ 64

-- `remainMs`, the bits of the `int64_t`.
abbrev pub remain : TimerThread → ℕ → ℕ
remain s now = (expire_time s + (2 ^ 64 - now)) % 2 ^ 64

-- `timeoutMs`, at the tick count.
pub timeout : TimerThread → ℕ → ℕ
timeout s now =
    let left = remain s now in
    if left == 0 || leb (2 ^ 63) left then 1 else if ltb int_max left then int_max else left

-- What `run` meets in a round: `shouldRun` before the sleep and after it, the tick count, and what the
-- handler returns.
pub record Turn : Type 0 where
  pub runs : Bool
  pub now : ℕ
  pub stays : Bool
  pub answer : Bool

-- What `run` does: it sleeps, or it calls the handler.
pub data Action : Type 0 where
  sleeps : (ms : ℕ) → Action
  expired : Action

-- `keepGoing`.
abbrev pub keep_going : TimerThread → Turn → Bool
keep_going s m = s.repeat && (if s.handler then m.answer else true)

abbrev pub expires : TimerThread → List Action
expires s = if s.handler then expired ∷ [] else []

abbrev pub with_actions :
    List Action → Option (TimerThread × List Action) → Option (TimerThread × List Action)
with_actions done none = none
with_actions done (some (s, later)) = some (s, done ++ later)

-- `run`; none where it has not returned after these rounds.
pub run : TimerThread → List Turn → Option (TimerThread × List Action)
unfolding timeout
run s [] = none
run s (m ∷ ms) =
    let slept = sleeps (timeout s m.now) ∷ [] in
    let rest = run (record s { start_time = expire_time s }) ms in
    if not m.runs
    then some (s, [])
    else if not m.stays
    then some (s, slept)
    else if not (keep_going s m)
    then some (s, slept ++ expires s)
    else with_actions (slept ++ expires s) rest
