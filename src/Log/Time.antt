-- ===== src/Log/Time.antt =====
-- `cur_time_str` of common/Log.cpp, and the whole of what `LOG_Print` writes with it.
pub mod Digits
mod Tests
use c_wrapper.Prelude.{
  ℕ, zero, suc, ◌+◌, ◌-◌, ◌*◌, ◌/◌, ◌%◌, List, [], ◌∷◌, ◌++◌, if◌then◌else◌, ltb, length, take,
  replicate, Option, Bool, true,
}
use c_wrapper.Log.{print, level_trace}

-- The decimal digits of a number, `k` at most.
pub decimal_text : (k : ℕ) → ℕ → List ℕ
decimal_text zero n = []
decimal_text (suc k) n =
    let front = decimal_text k (n / 10) in
    if ltb n 10 then (b'0' + n) ∷ [] else front ++ (b'0' + n % 10) ∷ []

-- `%0wd` of an int or a long that is not negative.
pub decimal_padded : (w : ℕ) → ℕ → List ℕ
unfolding decimal_text
decimal_padded w n = let digits = decimal_text 20 n in replicate (w - length digits) b'0' ++ digits

-- What `localtime_r` and `gettimeofday` store: the fields of `struct tm` that are used, and `tv_usec`.
pub record LocalTime : Type 0 where
  pub hour : ℕ
  pub min : ℕ
  pub sec : ℕ
  pub usec : ℕ

pub clock_text : LocalTime → List ℕ
clock_text t =
    (b'[' ∷ decimal_padded 2 t.hour)
    ++ (b':' ∷ decimal_padded 2 t.min)
    ++ (b':' ∷ decimal_padded 2 t.sec)
    ++ (b'.' ∷ decimal_padded 3 (t.usec / 1000))
    ++ (b']' ∷ b' ' ∷ [])

-- `cur_time_str`: snprintf stores 31 bytes at most.
pub cur_time_str : LocalTime → List ℕ
unfolding clock_text
cur_time_str t = take 31 (clock_text t)

-- `gLogLevel` and `gLogWithTime`.
pub record Logger : Type 0 where
  pub level : ℕ
  pub with_time : Bool

pub initial : Logger
initial = record { level = level_trace; with_time = true }

-- `LOG_SetLevel` and `LOG_GetLevel`.
pub set_level : ℕ → Logger → Logger
set_level level logger = record logger { level = level }

pub get_level : Logger → ℕ
get_level logger = logger.level

-- `LOG_Print`, given the time of the call and the formatted message.
pub log_print : Logger → (priority : ℕ) → Option (List ℕ) → LocalTime → List ℕ → List ℕ
log_print logger priority color now message =
    print logger.level logger.with_time priority color (cur_time_str now) message
