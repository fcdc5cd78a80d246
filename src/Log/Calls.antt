-- ===== src/Log/Calls.antt =====
-- The macros of common/Log.h and `AutoFunctionTrace`: each call of `LOG_Print` is its priority, its
-- color and its text. The message is given as it is formatted.
pub mod Names
mod Tests
use c_wrapper.Prelude.{
  ℕ, ◌+◌, ◌-◌, Bool, true, false, Option, none, some, List, [], ◌∷◌, ◌++◌, if◌then◌else◌, ◌&&◌,
  take, drop,
}
use c_wrapper.Log.{level_none, level_error, level_warn, level_info, level_debug, level_trace}
use c_wrapper.Log.Function.{last_at, max_function_size, simplify}
use c_wrapper.Log.Time.{decimal_text}
use mathlib.Core.Option as Option

pub record Entry : Type 0 where
  pub priority : ℕ
  pub color : List ℕ
  pub text : List ℕ

abbrev end_of_line : List ℕ
end_of_line = b'\n' ∷ []

abbrev color_bold : List ℕ
color_bold = b'\x1b' ∷ b'[' ∷ b'1' ∷ b'm' ∷ []

abbrev color_red : List ℕ
color_red = b'\x1b' ∷ b'[' ∷ b'3' ∷ b'1' ∷ b'm' ∷ []

abbrev color_yellow : List ℕ
color_yellow = b'\x1b' ∷ b'[' ∷ b'3' ∷ b'3' ∷ b'm' ∷ []

abbrev color_gray : List ℕ
color_gray = b'\x1b' ∷ b'[' ∷ b'3' ∷ b'7' ∷ b'm' ∷ []

-- What follows the byte at the index, if there is one.
abbrev after : Option ℕ → List ℕ → List ℕ
after none path = path
after (some i) path = drop (i + 1) path

-- `BASENAME`.
pub base_name : List ℕ → List ℕ
base_name path = after (last_at b'/' path) path

-- Where a call stands: `__FILE__`, `__LINE__` and `__PRETTY_FUNCTION__`.
pub record Place : Type 0 where
  pub file : List ℕ
  pub line : ℕ
  pub func : List ℕ

-- "[%s:%d] %s".
pub place_text : Place → List ℕ → List ℕ
place_text p name =
    (b'[' ∷ base_name p.file) ++ (b':' ∷ decimal_text 10 p.line) ++ (b']' ∷ b' ' ∷ name)

-- The text of an entry with its place: none where that of the function is indeterminate.
pub located : Place → List ℕ → Option (List ℕ)
located p message = elim (simplify (some p.func)) [
  | none ↦ none
  | some name ↦ some (place_text p name ++ (b'(' ∷ b')' ∷ b' ' ∷ message) ++ end_of_line)
]

-- `PRINT`, `LOGT` and `LOGD`.
pub log_plain : List ℕ → Entry
log_plain message = record { priority = level_none; color = []; text = message ++ end_of_line }

pub log_trace : List ℕ → Entry
log_trace message = record {
  priority = level_trace;
  color = color_gray;
  text = message ++ end_of_line;
}

pub log_debug : List ℕ → Entry
log_debug message = record { priority = level_debug; color = []; text = message ++ end_of_line }

-- `LOGI`, `LOGW` and `LOGE`.
pub log_info : Place → List ℕ → Option Entry
unfolding located
log_info p message =
    Option.map (λ t. record { priority = level_info; color = color_yellow; text = t })
      (located p message)

pub log_warn : Place → List ℕ → Option Entry
unfolding located
log_warn p message =
    Option.map (λ t. record { priority = level_warn; color = color_bold; text = t })
      (located p message)

pub log_error : Place → List ℕ → Option Entry
unfolding located
log_error p message =
    Option.map (λ t. record { priority = level_error; color = color_bold ++ color_red; text = t })
      (located p message)

-- What the program does at a check: it goes on, or it logs and calls `abort`.
pub data Outcome : Type 0 where
  goes_on : Outcome
  aborts : Option Entry → Outcome

-- `CHECK`, given the value of the expression and the message with its text.
pub check : Bool → Place → List ℕ → Outcome
check expr p message = if expr then goes_on else aborts (log_error p message)

-- `ABORT_IF`.
pub abort_if : Bool → Place → List ℕ → Outcome
abort_if expr p message = if expr then aborts (log_error p message) else goes_on

-- `ASSERT_IF`; `debug` says that NDEBUG is not defined.
pub assert_if : (debug : Bool) → Bool → Place → List ℕ → Outcome
assert_if debug expr p message = if debug && expr then aborts (log_error p message) else goes_on

-- `AutoFunctionTrace`: `mStackTrace`, to which snprintf writes 126 bytes at most.
pub stack_trace : Place → Option (List ℕ)
unfolding place_text
stack_trace p =
    Option.map (λ name. take (max_function_size - 2) (place_text p name)) (simplify (some p.func))

abbrev rule : List ℕ
rule = b'-' ∷ b'-' ∷ b'-' ∷ b'-' ∷ b'-' ∷ b'-' ∷ []

-- The entries of its constructor and of its destructor.
pub traced : List ℕ → Entry × Entry
unfolding log_trace
traced trace = (
  log_trace (
      rule
      ++ (b' ' ∷ trace)
      ++ (b'(' ∷ b')' ∷ b' ' ∷ b'E' ∷ b'n' ∷ b't' ∷ b'e' ∷ b'r' ∷ b' ' ∷ rule)),
  log_trace (
      rule
      ++ (b' ' ∷ trace)
      ++ (b'(' ∷ b')' ∷ b' ' ∷ b'L' ∷ b'e' ∷ b'a' ∷ b'v' ∷ b'e' ∷ b' ' ∷ rule)),
)
