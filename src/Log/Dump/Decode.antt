-- ===== src/Log/Dump/Decode.antt =====
-- Reading the bytes back from a dump.
use mathlib.Core.List.{append_assoc}
use c_wrapper.Prelude.{
  ℕ, zero, suc, ◌+◌, ◌-◌, ◌*◌, ◌/◌, ◌%◌, ◌^◌, ◌≤◌, ◌<◌, ◌≡◌, refl, arith, true, some, List, [], ◌∷◌,
  ◌++◌, if◌then◌else◌, ltb, ◌==◌, length, length-drop, get_or, take, drop, min, take-append-drop,
  ap, ap₂, ◌∙◌, sym, Bool-cases, inl, inr, dec_lt, lt→ltb, ltb_of_le, mod-eq_of_lt, ==_ne,
}
use c_wrapper.Log.Dump.{hex_digit, padded, columns, characters, line, remain_of, lines_from, dump}
use c_wrapper.Log.Dump.Hex.{
  padded_byte, unhex, unhex-hex_digit, hex_digit-blank, no_blank, no_blank-padded,
}
use c_wrapper.Log.Dump.Lines.{AllBytes, get_or-byte, drop-AllBytes}

-- The text after the first two blanks.
abbrev pub skip_header : List ℕ → List ℕ
skip_header [] = []
skip_header (x ∷ xs) = if x == b' ' then drop 1 xs else skip_header xs

-- The bytes of the columns from `i` on, up to a blank one.
abbrev pub decode_columns : (left : ℕ) → (i : ℕ) → List ℕ → List ℕ
decode_columns zero i cs = []
decode_columns (suc left) i cs =
    let rest = if i == 8 then drop 1 cs else cs in
    let later = decode_columns left (i + 1) (drop 3 rest) in
    if get_or rest 0 b' ' == b' '
    then []
    else (unhex (get_or rest 0 b' ') * 16 + unhex (get_or rest 1 b' ')) ∷ later

unfoldable pub decode_line : List ℕ → List ℕ
decode_line l = decode_columns 16 0 (skip_header l)

-- The bytes that a dump shows.
abbrev pub decode : List (List ℕ) → List ℕ
decode [] = []
decode (l ∷ ls) = decode_line l ++ decode ls

skip_header_lem :
    (xs rest : List ℕ) → no_blank xs ≡ true → skip_header (xs ++ b' ' ∷ b' ' ∷ rest) ≡ rest
skip_header_lem [] rest h = refl
skip_header_lem (x ∷ xs) rest h = ground (arith, skip_header_lem xs rest)

-- The bytes from `i` on below `remain`, `left` at most.
abbrev from : ℕ → List ℕ → (left : ℕ) → (i : ℕ) → List ℕ
from remain bytes zero i = []
from remain bytes (suc left) i =
    let later = from remain bytes left (i + 1) in
    if ltb i remain then get_or bytes i 0 ∷ later else []

byte_value : (n : ℕ) → n < 256 → unhex (hex_digit (n / 16)) * 16 + unhex (hex_digit (n % 16)) ≡ n
byte_value n h =
    omega (arith, unhex-hex_digit (n / 16) (omega arith), unhex-hex_digit (n % 16) (omega arith))

decode_columns-columns :
    (remain : ℕ) (bytes : List ℕ) (left i : ℕ) (rest : List ℕ)
    → AllBytes bytes
    → decode_columns left i (columns remain bytes left i ++ rest) ≡ from remain bytes left i
unfolding columns
decode_columns-columns remain bytes zero i rest h = refl
decode_columns-columns remain bytes (suc left) i rest h =
    let later = decode_columns-columns remain bytes left (i + 1) rest h in
    let b = get_or bytes i 0 in
    let two = padded_byte b (get_or-byte bytes i h) in
    let value = byte_value b (get_or-byte bytes i h) in
    elim (Bool-cases (ltb i remain)) [
      | inl there ↦ elim (Bool-cases (i == 8)) [
        | inl gap ↦ rw (there, gap, two, hex_digit-blank (b / 16)) (ap₂ ◌∷◌ value later)
        | inr tight ↦ rw (there, tight, two, hex_digit-blank (b / 16)) (ap₂ ◌∷◌ value later)
      ]
      | inr over ↦ elim (Bool-cases (i == 8)) [
        | inl gap ↦ rw (over, gap) refl
        | inr tight ↦ rw (over, tight) refl
      ]
    ]

drop-get_or : (xs : List ℕ) (i : ℕ) → i < length xs → drop i xs ≡ get_or xs i 0 ∷ drop (i + 1) xs
drop-get_or [] i h = absurd (omega arith)
drop-get_or (x ∷ xs) zero h = refl
drop-get_or (x ∷ xs) (suc i) h =
    let next : suc (i + 1) ≡ suc i + 1 = omega arith in
    drop-get_or xs i (omega arith) ∙ ap (λ k. get_or xs i 0 ∷ drop k (x ∷ xs)) next

drop_all : (xs : List ℕ) (i : ℕ) → length xs ≤ i → drop i xs ≡ []
drop_all [] zero h = refl
drop_all [] (suc i) h = refl
drop_all (x ∷ xs) zero h = absurd (omega arith)
drop_all (x ∷ xs) (suc i) h = drop_all xs i (omega arith)

from_lem :
    (bytes : List ℕ) (left i : ℕ)
    → i + left ≡ 16
    → from (min (length bytes) 16) bytes left i ≡ take left (drop i bytes)
from_lem bytes zero i h = refl
from_lem bytes (suc left) i h = elim (dec_lt i (length bytes)) [
  | yes more ↦
      rw (lt→ltb i (min (length bytes) 16) (omega arith), drop-get_or bytes i more)
        (ap (λ xs. get_or bytes i 0 ∷ xs) (from_lem bytes left (i + 1) (omega arith)))
  | no over ↦
      rw (ltb_of_le (min (length bytes) 16) i (omega arith), drop_all bytes i (omega arith)) refl
]

skip_line :
    (d a b c : List ℕ)
    → no_blank d ≡ true
    → skip_header (d ++ b' ' ∷ b' ' ∷ [] ++ a ++ b ++ c) ≡ a ++ (b ++ c)
skip_line d a b c h =
    let s = b' ' ∷ b' ' ∷ [] in
    ap skip_header (
      append_assoc (d ++ s ++ a) b c
      ∙ append_assoc (d ++ s) a (b ++ c)
      ∙ append_assoc d s (a ++ (b ++ c)))
    ∙ skip_header_lem d (a ++ (b ++ c)) h

decode_line_lem :
    (offset : ℕ) (bytes : List ℕ)
    → AllBytes bytes
    → decode_line (line offset (min (length bytes) 16) bytes) ≡ take 16 bytes
unfolding line decode_line
decode_line_lem offset bytes h =
    let remain = min (length bytes) 16 in
    let after = b' ' ∷ characters bytes remain 0 ++ b'\n' ∷ [] in
    ap (decode_columns 16 0) (
      skip_line (b'0' ∷ b'x' ∷ [] ++ padded 4 offset) (columns remain bytes 16 0)
        (b' ' ∷ characters bytes remain 0) (b'\n' ∷ []) (no_blank-padded 4 offset))
    ∙ decode_columns-columns remain bytes 16 0 after h
    ∙ from_lem bytes 16 0 refl

remain_of_lem : (left : ℕ) → left < 2 ^ 31 → remain_of left ≡ min left 16
remain_of_lem left h =
    let e = mod-eq_of_lt {n = left} {m = 2 ^ 32} (omega arith) in
    rw (e, ltb_of_le left (2 ^ 31 - 1) (omega arith)) refl

decode-lines_from :
    (fuel offset len : ℕ) (bytes : List ℕ)
    → AllBytes bytes
    → length bytes ≤ fuel
    → length bytes ≡ len - offset
    → len < 2 ^ 31
    → decode (lines_from fuel offset len bytes) ≡ bytes
unfolding lines_from
decode-lines_from zero offset len [] h p e small = refl
decode-lines_from zero offset len (b ∷ bytes) h p e small = absurd (omega arith)
decode-lines_from (suc fuel) offset len bytes h p e small = elim (dec_lt offset len) [
  | yes more ↦
      let next = mod-eq_of_lt {n = offset + 16} {m = 2 ^ 64} (omega arith) in
      rw (lt→ltb offset len more, next, remain_of_lem (len - offset) (omega arith), ← e)
        (ap₂ ◌++◌ (decode_line_lem offset bytes h) (
            decode-lines_from fuel (offset + 16) len (drop 16 bytes) (drop-AllBytes 16 bytes h)
              (omega (arith, length-drop 16 bytes)) (omega (arith, length-drop 16 bytes)) small)
          ∙ take-append-drop 16 bytes)
  | no over ↦ rw (ltb_of_le len offset (omega arith)) (sym (drop_all bytes 0 (omega arith)))
]

-- From the hexadecimal columns of a dump that is not filtered out, all its bytes can be read back in
-- order, where they are fewer than 2^31.
pub decode-dump :
    (level priority : ℕ) (bytes : List ℕ)
    → AllBytes bytes
    → length bytes < 2 ^ 31
    → priority ≤ level
    → decode (dump level priority (some bytes)) ≡ bytes
unfolding dump
decode-dump level priority [] h small loud = rw (ltb_of_le priority level loud) refl
decode-dump level priority (b ∷ bytes) h small loud =
    rw (ltb_of_le priority level loud, ==_ne (length (b ∷ bytes)) 0 (λ e. omega arith))
      (decode-lines_from (length (b ∷ bytes)) 0 (length (b ∷ bytes)) (b ∷ bytes) h (omega arith)
        (omega arith) small)
