-- ===== src/Log.antt =====
-- common/Log.h, Log.cpp: what the logger writes. A text is the list of its bytes, without the end
-- mark.
pub mod Function
pub mod Dump
pub mod Time
pub mod Calls
use c_wrapper.Prelude.{ℕ, Bool, Option, none, some, List, [], ◌∷◌, ◌++◌, if◌then◌else◌, ltb}

-- `LOG_LEVEL_e`.
abbrev pub level_none : ℕ
level_none = 0

abbrev pub level_error : ℕ
level_error = 1

abbrev pub level_warn : ℕ
level_warn = 2

abbrev pub level_info : ℕ
level_info = 3

abbrev pub level_debug : ℕ
level_debug = 4

abbrev pub level_trace : ℕ
level_trace = 5

abbrev pub color_reset : List ℕ
color_reset = b'\x1b' ∷ b'[' ∷ b'0' ∷ b'm' ∷ []

-- The color, and what ends it, around the text; the color is none where it is a null pointer.
abbrev pub in_color : Option (List ℕ) → List ℕ → List ℕ
in_color none text = text
in_color (some []) text = text
in_color (some (c ∷ cs)) text = (c ∷ cs) ++ text ++ color_reset

-- `LOG_Print` with `gLogLevel`: the bytes written, the text of the time (where `gLogWithTime`) and the
-- formatted message being given.
pub print :
    (level : ℕ) → (with_time : Bool) → (priority : ℕ) → Option (List ℕ) → List ℕ → List ℕ → List ℕ
print level with_time priority color time message =
    if ltb level priority then [] else in_color color ((if with_time then time else []) ++ message)
