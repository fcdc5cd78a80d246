-- ===== src/SysTime.antt =====
-- common/SysTime.h: the tick counts and the calendar time, from what `clock_gettime` stores.
pub mod Ticks
mod Tests
use c_wrapper.Prelude.{ℕ, ◌+◌, ◌*◌, ◌/◌, ◌%◌, ◌^◌}

-- `struct timespec`.
pub record Timespec : Type 0 where
  pub sec : ℕ
  pub nsec : ℕ

-- `getTickCountMs`, `getCurrentTime`.
pub tick_count_ms : Timespec → ℕ
tick_count_ms now = (now.sec * 1000 + now.nsec / 1000000) % 2 ^ 64

-- `getTickCountUs`.
pub tick_count_us : Timespec → ℕ
tick_count_us now = (now.sec * 1000000 + now.nsec / 1000) % 2 ^ 64

-- The fields of `struct tm` that are used, as `localtime_r` stores them; the year may not be before
-- 1900.
pub record Tm : Type 0 where
  pub year : ℕ
  pub mon : ℕ
  pub mday : ℕ
  pub hour : ℕ
  pub min : ℕ
  pub sec : ℕ

-- `RealTime`.
pub record RealTime : Type 0 where
  pub year : ℕ
  pub month : ℕ
  pub day : ℕ
  pub hour : ℕ
  pub min : ℕ
  pub sec : ℕ
  pub msec : ℕ

-- `getCurrentTime(RealTime&)`.
pub current_time : Timespec → Tm → RealTime
current_time now t = record {
  year = (t.year + 1900) % 2 ^ 16;
  month = (t.mon + 1) % 2 ^ 8;
  day = t.mday % 2 ^ 8;
  hour = t.hour % 2 ^ 8;
  min = t.min % 2 ^ 8;
  sec = t.sec % 2 ^ 8;
  msec = now.nsec / 1000000 % 2 ^ 16;
}
