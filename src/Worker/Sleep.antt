-- ===== src/Worker/Sleep.antt =====
-- common/WorkerThread.h, WorkerThread.cpp: sleep, msleep and isCurrentThread. An `int` is its 32 bits.
pub mod Times
mod Tests
use c_wrapper.Prelude.{
  ℕ, ◌+◌, ◌-◌, ◌*◌, ◌/◌, ◌%◌, ◌^◌, Bool, Option, none, some, List, [], ◌∷◌, ◌&&◌, ◌||◌,
  if◌then◌else◌, ltb, ◌==◌,
}
use c_wrapper.Worker.{System, is_running, is_stopping}
use c_wrapper.SysTime.{Timespec}
use mathlib.Core.Option as Option

-- `isCurrentThread`; `same` is what `pthread_equal(pthread_self(), mId)` says.
pub is_current_thread : Bool → System → Bool
is_current_thread same s = (is_running s.state || is_stopping s.state) && same

-- `INT_MAX`.
abbrev pub largest_int : ℕ
largest_int = 2 ^ 31 - 1

-- Whether an `int` is 0 or less.
abbrev pub is_not_positive : ℕ → Bool
is_not_positive n = n == 0 || ltb largest_int n

-- `sleep`: the argument of `msleep`, where it is called.
pub sleep : ℕ → Option ℕ
sleep sec =
    if is_not_positive sec
    then none
    else some ((if ltb (largest_int / 1000) sec then largest_int / 1000 else sec) * 1000 % 2 ^ 32)

-- How `msleep` waits: not at all, on `mSleepCv` for the milliseconds, or in nanosleep.
pub data Pause : Type 0 where
  no_pause : Pause
  waits : (msec : ℕ) → Pause
  naps : (request : Timespec) → Pause

abbrev pub request_of : ℕ → Timespec
request_of msec = record { sec = msec / 1000; nsec = msec % 1000 * 1000000 }

pub msleep : Bool → System → ℕ → Pause
unfolding is_current_thread
msleep same s msec =
    if is_not_positive msec
    then no_pause
    else if is_current_thread same s
    then if is_stopping s.state then no_pause else waits msec
    else naps (request_of msec)

-- What a call of nanosleep ends with: the time is over; a signal comes, and the time that is left is
-- stored; or another error.
pub data NapEnd : Type 0 where
  finished : NapEnd
  interrupted : (rest : Timespec) → NapEnd
  failed : NapEnd

-- The loop on nanosleep: the times that it asks for.
pub nap : List NapEnd → Timespec → Option (List Timespec)
nap [] request = none
nap (interrupted rest ∷ es) request = Option.map (λ asked. request ∷ asked) (nap es rest)
nap (e ∷ es) request = some (request ∷ [])
