-- ===== src/Log/Dump.antt =====
-- `LOG_Dump` of common/Log.cpp: sixteen bytes a line, in hexadecimal and as characters.
pub mod Hex
pub mod Lines
pub mod Decode
mod Tests
use c_wrapper.Prelude.{
  ℕ, zero, suc, ◌+◌, ◌-◌, ◌/◌, ◌%◌, ◌^◌, Bool, Option, none, some, List, [], ◌∷◌, ◌++◌, ◌&&◌,
  if◌then◌else◌, ltb, leb, ◌==◌, length, get_or, drop, replicate, min,
}

abbrev pub hex_digit : ℕ → ℕ
hex_digit d = if ltb d 10 then b'0' + d else b'a' + (d - 10)

-- The digits of a number, at most `k`.
pub hex_text : (k : ℕ) → ℕ → List ℕ
hex_text zero n = []
hex_text (suc k) n =
    let front = hex_text k (n / 16) in
    if ltb n 16 then hex_digit n ∷ [] else front ++ hex_digit (n % 16) ∷ []

-- `%0wx`, for a number of at most 64 bits.
pub padded : (w : ℕ) → ℕ → List ℕ
unfolding hex_text
padded w n = let digits = hex_text 16 n in replicate (w - length digits) b'0' ++ digits

-- `0x%04zx  `.
abbrev pub header : ℕ → List ℕ
header offset = b'0' ∷ b'x' ∷ [] ++ padded 4 offset ++ b' ' ∷ b' ' ∷ []

abbrev pub blanks : List ℕ
blanks = b' ' ∷ b' ' ∷ b' ' ∷ []

-- What the first inner loop writes for an index: `%02x ` or three blanks, after the blank at the
-- index 8.
abbrev pub column : ℕ → List ℕ → ℕ → List ℕ
column remain bytes i =
    (if i == 8 then b' ' ∷ [] else [])
    ++ (if ltb i remain then padded 2 (get_or bytes i 0) ++ b' ' ∷ [] else blanks)

-- Its `left` last indices, from `i` on.
pub columns : ℕ → List ℕ → (left : ℕ) → (i : ℕ) → List ℕ
columns remain bytes zero i = []
columns remain bytes (suc left) i = column remain bytes i ++ columns remain bytes left (i + 1)

-- `IS_PRINTABLE(c) ? c : '.'`.
abbrev pub shown : ℕ → ℕ
shown c = if leb 32 c && leb c 126 then c else b'.'

-- The second inner loop.
pub characters : List ℕ → (left : ℕ) → (i : ℕ) → List ℕ
characters bytes zero i = []
characters bytes (suc left) i = shown (get_or bytes i 0) ∷ characters bytes left (i + 1)

-- A line; `bytes` is what is left of the bytes.
pub line : ℕ → ℕ → List ℕ → List ℕ
line offset remain bytes =
    header offset ++ columns remain bytes 16 0 ++ b' ' ∷ characters bytes remain 0 ++ b'\n' ∷ []

-- `remain`, the `int` of what is left, at most 16: a negative one is below every index.
abbrev pub remain_of : ℕ → ℕ
remain_of left = let r = left % 2 ^ 32 in if ltb (2 ^ 31 - 1) r then 0 else min r 16

-- The loop on `offset`; the lines that are written.
pub lines_from : (fuel : ℕ) → (offset : ℕ) → (len : ℕ) → List ℕ → List (List ℕ)
lines_from zero offset len bytes = []
lines_from (suc fuel) offset len bytes =
    let later = lines_from fuel ((offset + 16) % 2 ^ 64) len (drop 16 bytes) in
    if ltb offset len then line offset (remain_of (len - offset)) bytes ∷ later else []

-- `LOG_Dump` with `gLogLevel`; none for a null pointer. The bytes are as many as the lines at least.
pub dump : (level : ℕ) → (priority : ℕ) → Option (List ℕ) → List (List ℕ)
dump level priority none = []
dump level priority (some bytes) =
    if ltb level priority
    then []
    else if length bytes == 0
    then []
    else lines_from (length bytes) 0 (length bytes) bytes
