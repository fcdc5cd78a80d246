-- ===== src/Log/Dump/Lines.antt =====
-- How long the lines of a dump are.
use c_wrapper.Prelude.{
  ℕ, zero, suc, ◌+◌, ◌-◌, ◌*◌, ◌%◌, ◌^◌, ◌≤◌, ◌<◌, ◌≡◌, refl, arith, some, List, [], ◌∷◌, ◌++◌,
  ◌&&◌, if◌then◌else◌, ltb, leb, ◌==◌, length, length-append, get_or, drop, ap, Bool-cases, inl,
  inr,
}
use c_wrapper.Log.Dump.{
  padded, header, column, columns, characters, line, remain_of, lines_from, dump,
}
use c_wrapper.Log.Dump.Hex.{padded-length, padded_byte}

abbrev pub AllBytes : List ℕ → Type 0
AllBytes [] = Unit {0}
AllBytes (x ∷ xs) = (x < 256) × AllBytes xs

pub get_or-byte : (xs : List ℕ) (i : ℕ) → AllBytes xs → get_or xs i 0 < 256
get_or-byte [] i h = omega arith
get_or-byte (x ∷ xs) zero h = h.0
get_or-byte (x ∷ xs) (suc i) h = get_or-byte xs i h.1

pub drop-AllBytes : (n : ℕ) (xs : List ℕ) → AllBytes xs → AllBytes (drop n xs)
drop-AllBytes zero xs h = h
drop-AllBytes (suc n) [] h = tt
drop-AllBytes (suc n) (x ∷ xs) h = drop-AllBytes n xs h.1

column-length :
    (remain : ℕ) (bytes : List ℕ) (i : ℕ)
    → AllBytes bytes
    → length (column remain bytes i) ≡ (if i == 8 then 4 else 3)
column-length remain bytes i h = elim (Bool-cases (i == 8)) [
  | inl gap ↦ elim (Bool-cases (ltb i remain)) [
    | inl there ↦ rw (gap, there, padded_byte (get_or bytes i 0) (get_or-byte bytes i h)) refl
    | inr over ↦ rw (gap, over) refl
  ]
  | inr tight ↦ elim (Bool-cases (ltb i remain)) [
    | inl there ↦ rw (tight, there, padded_byte (get_or bytes i 0) (get_or-byte bytes i h)) refl
    | inr over ↦ rw (tight, over) refl
  ]
]

columns-length :
    (remain : ℕ) (bytes : List ℕ) (left i : ℕ)
    → AllBytes bytes
    → length (columns remain bytes left i)
      ≡ 3 * left + (if leb i 8 && ltb 8 (i + left) then 1 else 0)
unfolding columns
columns-length remain bytes zero i h = ground arith
columns-length remain bytes (suc left) i h = ground (
  arith,
  length-append (column remain bytes i) (columns remain bytes left (i + 1)),
  column-length remain bytes i h,
  columns-length remain bytes left (i + 1) h,
)

characters-length : (bytes : List ℕ) (left i : ℕ) → length (characters bytes left i) ≡ left
unfolding characters
characters-length bytes zero i = refl
characters-length bytes (suc left) i = ap suc (characters-length bytes left (i + 1))

line-length :
    (offset remain : ℕ) (bytes : List ℕ)
    → AllBytes bytes
    → remain ≤ 16
    → length (line offset remain bytes) < 128
unfolding line
line-length offset remain bytes h r =
    let c = columns remain bytes 16 0 in
    let t = b' ' ∷ characters bytes remain 0 in
    let top = header offset in
    let digits = b'0' ∷ b'x' ∷ [] ++ padded 4 offset in
    omega (
      arith,
      length-append (top ++ c ++ t) (b'\n' ∷ []),
      length-append (top ++ c) t,
      length-append top c,
      length-append digits (b' ' ∷ b' ' ∷ []),
      length-append (b'0' ∷ b'x' ∷ []) (padded 4 offset),
      padded-length 4 offset (omega arith),
      columns-length remain bytes 16 0 h,
      characters-length bytes remain 0,
    )

remain_of-bound : (left : ℕ) → remain_of left ≤ 16
remain_of-bound left = ground arith

-- The lines are shorter than this.
abbrev pub AllShorter : ℕ → List (List ℕ) → Type 0
AllShorter n [] = Unit {0}
AllShorter n (xs ∷ xss) = (length xs < n) × AllShorter n xss

lines_from-AllShorter :
    (fuel offset len : ℕ) (bytes : List ℕ)
    → AllBytes bytes
    → AllShorter 128 (lines_from fuel offset len bytes)
unfolding lines_from
lines_from-AllShorter zero offset len bytes h = tt
lines_from-AllShorter (suc fuel) offset len bytes h = elim (Bool-cases (ltb offset len)) [
  | inl more ↦ rw more (
    line-length offset (remain_of (len - offset)) bytes h (remain_of-bound (len - offset)),
    lines_from-AllShorter fuel ((offset + 16) % 2 ^ 64) len (drop 16 bytes)
        (drop-AllBytes 16 bytes h),
  )
  | inr over ↦ rw over tt
]

-- Every line of a dump fits with its end mark into the buffer of 128 bytes.
pub dump-AllShorter :
    (level priority : ℕ) (bytes : List ℕ)
    → AllBytes bytes
    → AllShorter 128 (dump level priority (some bytes))
unfolding dump
dump-AllShorter level priority bytes h = elim (Bool-cases (ltb level priority)) [
  | inl quiet ↦ rw quiet tt
  | inr loud ↦ elim (Bool-cases (length bytes == 0)) [
    | inl empty ↦ rw (loud, empty) tt
    | inr some_left ↦
        rw (loud, some_left) (lines_from-AllShorter (length bytes) 0 (length bytes) bytes h)
  ]
]
