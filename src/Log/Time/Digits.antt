-- ===== src/Log/Time/Digits.antt =====
-- The text of a time, and its value.
use mathlib.Core.List.{append_assoc, append-nil}
use c_wrapper.Prelude.{
  ℕ, ◌+◌, ◌-◌, ◌*◌, ◌/◌, ◌%◌, ◌≤◌, ◌<◌, ◌≡◌, refl, sym, ap, ap₂, ◌∙◌, arith, List, [], ◌∷◌, ◌++◌,
  length, get_or, dec_lt, lt→ltb, ltb_of_le, Option, none, some, drop, take,
}
use c_wrapper.Log.{in_color, print, color_reset}
use c_wrapper.Log.Time.{
  decimal_text, decimal_padded, LocalTime, clock_text, cur_time_str, log_print, set_level, initial,
}

two_digits : (n : ℕ) → n < 100 → decimal_padded 2 n ≡ (b'0' + n / 10) ∷ (b'0' + n % 10) ∷ []
unfolding decimal_padded decimal_text
two_digits n h = elim (dec_lt n 10) [
  | yes small ↦
      let none_front : 0 ≡ n / 10 = omega arith in
      let itself : n ≡ n % 10 = omega arith in
      rw (lt→ltb n 10 small) (ap₂ (λ a b. (b'0' + a) ∷ (b'0' + b) ∷ []) none_front itself)
  | no large ↦ rw (ltb_of_le 10 n (omega arith), lt→ltb (n / 10) 10 (omega arith)) refl
]

three_digits :
    (n : ℕ)
    → n < 1000
    → decimal_padded 3 n ≡ (b'0' + n / 100) ∷ (b'0' + n / 10 % 10) ∷ (b'0' + n % 10) ∷ []
unfolding decimal_padded decimal_text
three_digits n h = elim (dec_lt n 10) [
  | yes small ↦
      let hundreds : 0 ≡ n / 100 = omega arith in
      let tens : 0 ≡ n / 10 % 10 = omega arith in
      let itself : n ≡ n % 10 = omega arith in
      rw (lt→ltb n 10 small) (
        ap₂ (λ a b. (b'0' + a) ∷ (b'0' + b) ∷ (b'0' + n) ∷ []) hundreds tens
        ∙ ap (λ c. (b'0' + n / 100) ∷ (b'0' + n / 10 % 10) ∷ (b'0' + c) ∷ []) itself)
  | no large ↦ elim (dec_lt n 100) [
    | yes middle ↦
        let hundreds : 0 ≡ n / 100 = omega arith in
        let tens : n / 10 ≡ n / 10 % 10 = omega arith in
        rw (ltb_of_le 10 n (omega arith), lt→ltb (n / 10) 10 (omega arith))
          (ap₂ (λ a b. (b'0' + a) ∷ (b'0' + b) ∷ (b'0' + n % 10) ∷ []) hundreds tens)
    | no big ↦
        let hundreds : n / 10 / 10 ≡ n / 100 = omega arith in
        rw
          (
            ltb_of_le 10 n (omega arith),
            ltb_of_le 10 (n / 10) (omega arith),
            lt→ltb (n / 10 / 10) 10 (omega arith),
          )
          (ap (λ a. (b'0' + a) ∷ (b'0' + n / 10 % 10) ∷ (b'0' + n % 10) ∷ []) hundreds)
  ]
]

-- The value of the digits from the place `i` on.
abbrev pub digit_at : List ℕ → ℕ → ℕ
digit_at cs i = get_or cs i b'0' - b'0'

-- Hours, minutes, seconds and milliseconds, as they are read from the text.
pub read_clock : List ℕ → ℕ × ℕ × ℕ × ℕ
read_clock cs = (
  digit_at cs 1 * 10 + digit_at cs 2,
  digit_at cs 4 * 10 + digit_at cs 5,
  digit_at cs 7 * 10 + digit_at cs 8,
  digit_at cs 10 * 100 + digit_at cs 11 * 10 + digit_at cs 12,
)

-- The manual of localtime_r and gettimeofday: a leap second is the second 60.
abbrev pub IsClock : LocalTime → Type 0
IsClock t = (t.hour < 24) × (t.min < 60) × (t.sec ≤ 60) × (t.usec < 1000000)

-- The characters of a clock.
spelled : LocalTime → List ℕ
spelled t =
    b'['
    ∷ (b'0' + t.hour / 10)
    ∷ (b'0' + t.hour % 10)
    ∷ b':'
    ∷ (b'0' + t.min / 10)
    ∷ (b'0' + t.min % 10)
    ∷ b':'
    ∷ (b'0' + t.sec / 10)
    ∷ (b'0' + t.sec % 10)
    ∷ b'.'
    ∷ (b'0' + t.usec / 1000 / 100)
    ∷ (b'0' + t.usec / 1000 / 10 % 10)
    ∷ (b'0' + t.usec / 1000 % 10)
    ∷ b']'
    ∷ b' '
    ∷ []

cur_time_str-spelled : (t : LocalTime) → IsClock t → cur_time_str t ≡ spelled t
unfolding cur_time_str clock_text spelled
cur_time_str-spelled t (h, m, s, u) =
    rw
      (
        two_digits t.hour (omega arith),
        two_digits t.min (omega arith),
        two_digits t.sec (omega arith),
        three_digits (t.usec / 1000) (omega arith),
      )
      refl

read_clock-spelled :
    (t : LocalTime) → IsClock t → read_clock (spelled t) ≡ (t.hour, t.min, t.sec, t.usec / 1000)
unfolding read_clock spelled
read_clock-spelled t (h, m, s, u) = ground arith

read_clock-front :
    (t : LocalTime) (rest : List ℕ)
    → IsClock t
    → read_clock (spelled t ++ rest) ≡ (t.hour, t.min, t.sec, t.usec / 1000)
unfolding spelled read_clock
read_clock-front t rest c = read_clock-spelled t c

rest_lem :
    (t : LocalTime) (message end : List ℕ) → drop 15 (spelled t ++ message ++ end) ≡ message ++ end
unfolding spelled
rest_lem t message end = refl

drop-length : (xs ys : List ℕ) → drop (length xs) (xs ++ ys) ≡ ys
drop-length [] ys = refl
drop-length (x ∷ xs) ys = drop-length xs ys

take-length : (xs ys : List ℕ) → take (length xs) (xs ++ ys) ≡ xs
take-length [] ys = refl
take-length (x ∷ xs) ys = ap (◌∷◌ x) (take-length xs ys)

-- What is written before and after a message in color.
abbrev pub opening : Option (List ℕ) → List ℕ
opening none = []
opening (some cs) = cs

abbrev pub closing : Option (List ℕ) → List ℕ
closing (some (c ∷ cs)) = color_reset
closing _ = []

in_color_lem :
    (color : Option (List ℕ)) (text : List ℕ)
    → in_color color text ≡ opening color ++ (text ++ closing color)
in_color_lem none text = sym (append-nil text)
in_color_lem (some []) text = sym (append-nil text)
in_color_lem (some (c ∷ cs)) text = append_assoc (c ∷ cs) text color_reset

-- A line that LOG_Print writes can be read: with a priority up to the level that was set, the color
-- stands first; the time, where localtime_r and gettimeofday store what they document, is read back
-- from the 15 bytes after it to the millisecond; and the rest is the message and what ends the
-- color.
pub log_print_lem :
    (level priority : ℕ) (color : Option (List ℕ)) (now : LocalTime) (message : List ℕ)
    → priority ≤ level
    → IsClock now
    → let out = log_print (set_level level initial) priority color now message in
      let body = drop (length (opening color)) out in
      (take (length (opening color)) out ≡ opening color)
      × (read_clock body ≡ (now.hour, now.min, now.sec, now.usec / 1000))
      × (drop 15 body ≡ message ++ closing color)
unfolding log_print print spelled set_level initial
log_print_lem level priority color now message p c =
    rw
      (
        ltb_of_le priority level p,
        in_color_lem color (cur_time_str now ++ message),
        cur_time_str-spelled now c,
        drop-length (opening color) (spelled now ++ message ++ closing color),
        take-length (opening color) (spelled now ++ message ++ closing color),
      )
      (
        refl,
        read_clock-front now (message ++ closing color) c,
        rest_lem now message (closing color),
      )
