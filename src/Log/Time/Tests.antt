-- ===== src/Log/Time/Tests.antt =====
-- The text of a time, and a message in color.
use c_wrapper.Prelude.{◌≡◌, refl, arith, List, [], ◌∷◌, ◌++◌, ℕ, some, take, drop}
use c_wrapper.Log.{level_info, level_trace, color_reset}
use c_wrapper.Log.Time.{
  LocalTime, cur_time_str, clock_text, decimal_padded, decimal_text, log_print, set_level, initial,
}
use c_wrapper.Log.Time.Digits.{read_clock, log_print_lem}

abbrev midnight : LocalTime
midnight = record { hour = 0; min = 5; sec = 9; usec = 42999 }

-- "[00:05:09.042] "
clock_test :
    cur_time_str midnight
    ≡ b'[' ∷ b'0' ∷ b'0' ∷ b':' ∷ b'0' ∷ b'5' ∷ b':' ∷ b'0' ∷ b'9' ∷ b'.' ∷ b'0' ∷ b'4' ∷ b'2'
      ∷ b']' ∷ b' ' ∷ []
unfolding cur_time_str clock_text decimal_padded decimal_text
clock_test = refl

abbrev yellow : List ℕ
yellow = b'\x1b' ∷ b'[' ∷ b'3' ∷ b'3' ∷ b'm' ∷ []

log_print_lem_example :
    let out =
      log_print
        (set_level level_trace initial)
        level_info
        (some yellow)
        midnight
        (b'h' ∷ b'i' ∷ []) in
    (take 5 out ≡ yellow)
    × (read_clock (drop 5 out) ≡ (0, 5, 9, 42))
    × (drop 15 (drop 5 out) ≡ (b'h' ∷ b'i' ∷ []) ++ color_reset)
log_print_lem_example =
    log_print_lem level_trace level_info (some yellow) midnight (b'h' ∷ b'i' ∷ []) (omega arith)
      (omega arith, omega arith, omega arith, omega arith)
