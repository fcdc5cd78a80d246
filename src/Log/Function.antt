-- ===== src/Log/Function.antt =====
-- `simplify_function` of common/Log.cpp: the name in the text of `__PRETTY_FUNCTION__`.
pub mod Name
mod Tests
use c_wrapper.Prelude.{
  ℕ, ◌+◌, ◌-◌, Bool, Option, none, some, List, [], ◌∷◌, ◌++◌, if◌then◌else◌, ltb, leb, ◌==◌, length,
  take, drop,
}

abbrev pub max_function_size : ℕ
max_function_size = 128

-- `strrchr`: the index of the last such byte.
unfoldable pub last_at : ℕ → List ℕ → Option ℕ
last_at c [] = none
last_at c (x ∷ xs) = elim (last_at c xs) [
  | none ↦ if x == c then some 0 else none
  | some i ↦ some (i + 1)
]

-- `end`.
abbrev pub end_of : Option ℕ → List ℕ → ℕ
end_of none func = length func
end_of (some i) func = i

-- The loop on `strchr(p, ' ')`: `begin`, the index of `p`, `end`, and the text from `p` on.
unfoldable pub scan : Option ℕ → ℕ → ℕ → List ℕ → Option ℕ
scan begin i end [] = begin
scan begin i end (x ∷ xs) =
    let at_space = scan (some i) (i + 1) end xs in
    let other = scan begin (i + 1) end xs in
    if x == b' ' then if ltb i end then at_space else begin else other

abbrev pub dots : List ℕ
dots = b'.' ∷ b'.' ∷ b'.' ∷ []

-- What is copied: at most 127 bytes.
abbrev pub shortened : List ℕ → List ℕ
shortened name =
    if leb max_function_size (length name) then take (max_function_size - 4) name ++ dots else name

-- The text between `begin` and `end`; without a space `begin` is `buf`, whose bytes are indeterminate.
abbrev pub between : Option ℕ → ℕ → List ℕ → Option (List ℕ)
between none end func = none
between (some b) end func = some (shortened (take (end - (b + 1)) (drop (b + 1) func)))

-- `simplify_function`, for a text without zero bytes or a null pointer; none where the result is
-- indeterminate.
unfoldable pub simplify : Option (List ℕ) → Option (List ℕ)
unfolding last_at scan
simplify none = some []
simplify (some func) =
    let end = end_of (last_at b'(' func) func in between (scan none 0 end func) end func
