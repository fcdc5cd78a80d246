-- ===== src/TimerList.antt =====
-- The timer list of common/MainLoop.cpp: `mTimers`, a list of timers in the order of their expiry. A
-- timer is named by a number (its address), and `expiry` reads its `mExpiry`.
pub mod Order
pub mod Due
mod Tests
use c_wrapper.Prelude.{
  ℕ, ◌-◌, ◌*◌, Bool, true, false, Option, none, some, List, [], ◌∷◌, ◌||◌, if◌then◌else◌, ltb, leb,
  ◌==◌,
}

abbrev pub wait_time_ms : ℕ
wait_time_ms = 10 * 1000

-- `std::find` of the timer in the list.
unfoldable pub contains : ℕ → List ℕ → Bool
contains t [] = false
contains t (x ∷ xs) = x == t || contains t xs

module _ (expiry : ℕ → ℕ) where
  -- `mTimers.insert` before the first timer that expires later.
  unfoldable pub insert_sorted : ℕ → List ℕ → List ℕ
  insert_sorted t [] = t ∷ []
  insert_sorted t (x ∷ xs) =
      if ltb (expiry t) (expiry x) then t ∷ x ∷ xs else x ∷ insert_sorted t xs

  -- `insertTimerLocked`; the argument is `none` for a null timer.
  unfoldable pub insert_timer : Option ℕ → List ℕ → List ℕ
  insert_timer none ts = ts
  insert_timer (some t) ts = if contains t ts then ts else insert_sorted t ts

-- The loop of `removeTimer`: the first entry of the timer is erased.
pub erase_timer : ℕ → List ℕ → List ℕ
erase_timer t [] = []
erase_timer t (x ∷ xs) = if x == t then xs else x ∷ erase_timer t xs

pub remove_timer : Option ℕ → List ℕ → List ℕ
remove_timer none ts = ts
remove_timer (some t) ts = erase_timer t ts

module _ (expiry : ℕ → ℕ) (now : ℕ) where
  -- `takeExpiredTimerLocked`: what is left of the list, and the timer to execute. `can_execute t` is
  -- the answer of `t->tryBeginExecuteFromLoop()`; the list holds no null timer.
  unfoldable pub take_expired : (ℕ → Bool) → List ℕ → List ℕ × Option ℕ
  take_expired can_execute [] = ([], none)
  take_expired can_execute (t ∷ ts) =
      if ltb now (expiry t)
      then (t ∷ ts, none)
      else if can_execute t
      then (ts, some t)
      else (ts, none)

  -- `getNextTimerTimeoutLocked`.
  unfoldable pub next_timeout : List ℕ → ℕ
  next_timeout [] = wait_time_ms
  next_timeout (t ∷ ts) =
      if leb (expiry t) now
      then 0
      else if ltb wait_time_ms (expiry t - now)
      then wait_time_ms
      else expiry t - now
