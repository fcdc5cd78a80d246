-- ===== src/MainLoop/Timers.antt =====
-- The loop `while ((timeToWait = runTimers()) == 0)` of common/MainLoop.cpp, with `executeFromLoop`
-- and `requeueFromLoop` of common/Timer.cpp, while no other thread touches the timers.
pub mod Later
pub mod Counts
pub mod Round
mod Tests
use c_wrapper.Prelude.{
  ℕ, Bool, true, false, Option, none, some, List, [], ◌∷◌, ◌&&◌, not, if◌then◌else◌, ◌==◌,
}
use c_wrapper.Timer.{infinite, make_expiry}
use c_wrapper.TimerList.{insert_timer, take_expired, next_timeout}

-- `mInterval`, `mRepeat`, and whether `mHandler` is set.
pub record Setup : Type 0 where
  pub interval : ℕ
  pub repeat : Bool
  pub handler : Bool

-- The timers' `mExpiry`, and the loop's list.
pub record Timers : Type 0 where
  pub expiry : ℕ → ℕ
  pub list : List ℕ

-- What `runTimers` meets: the three tick counts that it reads, what the callback returns, and whether
-- it has called `stop`.
pub record Turn : Type 0 where
  pub taken_at : ℕ
  pub executed_at : ℕ
  pub looked_at : ℕ
  pub answer : Bool
  pub stopped : Bool

-- `keep` of `executeFromLoop`.
pub keeps : Setup → Turn → Bool
keeps c m =
    not m.stopped
    && (c.handler && m.answer)
    && c.repeat
    && not (c.interval == infinite)
    && c.handler

abbrev pub renewed : (ℕ → ℕ) → ℕ → ℕ → ℕ → ℕ
renewed expiry t e x = if x == t then e else expiry x

abbrev pub with_ran : Option ℕ → Option (Timers × ℕ × List ℕ) → Option (Timers × ℕ × List ℕ)
with_ran ran none = none
with_ran none (some r) = some r
with_ran (some t) (some (s, wait, ts)) = some (s, wait, t ∷ ts)

module _ (setup : ℕ → Setup) where
  -- `executeFromLoop`: the timers, and whether the timer is kept.
  pub execute : Timers → ℕ → Turn → Timers × Bool
  execute s t m =
      if keeps (setup t) m
      then (
        record s { expiry = renewed s.expiry t (make_expiry (setup t).interval m.executed_at) },
        true,
      )
      else (s, false)

  -- `requeueFromLoop`, no stop being requested after `executeFromLoop` has looked.
  pub requeue : Timers → ℕ → Timers
  requeue s t = record s { list = insert_timer s.expiry (some t) s.list }

  -- The part of `runTimers` that executes a timer.
  pub run_expired : Timers → Option ℕ → Turn → Timers
  unfolding execute requeue
  run_expired s none m = s
  run_expired s (some t) m = let (s', keep) = execute s t m in if keep then requeue s' t else s'

  -- `runTimers`: the timers, the time to wait, and the timer that was executed.
  pub run_timers : Timers → Turn → Timers × ℕ × Option ℕ
  unfolding run_expired
  run_timers s m =
      let (ts, expired) = take_expired s.expiry m.taken_at (λ t. true) s.list in
      let s' = run_expired (record s { list = ts }) expired m in
      (s', next_timeout s'.expiry m.looked_at s'.list, expired)

  -- The loop around `runTimers`, given what its turns meet: the timers, `timeToWait`, and the timers
  -- executed; none where it has not ended after these turns.
  pub run_round : Timers → List Turn → Option (Timers × ℕ × List ℕ)
  run_round s [] = none
  run_round s (m ∷ ms) =
      let (s', wait, ran) = run_timers s m in
      let rest = run_round s' ms in with_ran ran (if wait == 0 then rest else some (s', wait, []))
