-- ===== src/Log/Dump/Hex.antt =====
-- Hexadecimal digits.
use c_wrapper.Prelude.{
  ℕ, zero, suc, ◌+◌, ◌-◌, ◌/◌, ◌%◌, ◌≤◌, ◌<◌, ◌≡◌, refl, arith, Bool, true, false, List, [], ◌∷◌,
  ◌++◌, ◌&&◌, not, if◌then◌else◌, ltb, ◌==◌, length, length-append, length-replicate, replicate,
  ap₂, Bool-cases, inl, inr, dec_lt, lt→ltb, ltb_of_le,
}
use c_wrapper.Log.Dump.{hex_digit, hex_text, padded}

-- A number of at most `k` digits takes no more.
hex_text-length : (k n : ℕ) → length (hex_text k n) ≤ k
unfolding hex_text
hex_text-length zero n = omega arith
hex_text-length (suc k) n = ground (
  arith,
  length-append (hex_text k (n / 16)) (hex_digit (n % 16) ∷ []),
  hex_text-length k (n / 16),
)

pub padded-length : (w n : ℕ) → w ≤ 16 → length (padded w n) ≤ 16
unfolding padded
padded-length w n h =
    let digits = hex_text 16 n in
    omega (
      arith,
      length-append (replicate (w - length digits) b'0') digits,
      length-replicate {A = ℕ} (w - length digits) b'0',
      hex_text-length 16 n,
    )

-- A byte is two digits.
pub padded_byte : (n : ℕ) → n < 256 → padded 2 n ≡ hex_digit (n / 16) ∷ hex_digit (n % 16) ∷ []
unfolding padded hex_text
padded_byte n h = elim (dec_lt n 16) [
  | yes small ↦
      let none_front : 0 ≡ n / 16 = omega arith in
      let itself : n ≡ n % 16 = omega arith in
      rw (lt→ltb n 16 small) (ap₂ (λ a b. hex_digit a ∷ hex_digit b ∷ []) none_front itself)
  | no large ↦ rw (ltb_of_le 16 n (omega arith), lt→ltb (n / 16) 16 (omega arith)) refl
]

-- The value of a digit.
abbrev pub unhex : ℕ → ℕ
unhex c = if ltb c b'a' then c - b'0' else c - b'a' + 10

pub unhex-hex_digit : (d : ℕ) → d < 16 → unhex (hex_digit d) ≡ d
unhex-hex_digit d h = ground arith

pub hex_digit-blank : (d : ℕ) → (hex_digit d == b' ') ≡ false
hex_digit-blank d = ground arith

-- There is no blank among the bytes.
abbrev pub no_blank : List ℕ → Bool
no_blank [] = true
no_blank (x ∷ xs) = not (x == b' ') && no_blank xs

no_blank-append :
    (xs ys : List ℕ) → no_blank xs ≡ true → no_blank ys ≡ true → no_blank (xs ++ ys) ≡ true
no_blank-append [] ys h k = k
no_blank-append (x ∷ xs) ys h k = ground (arith, no_blank-append xs ys)

no_blank-hex_text : (k n : ℕ) → no_blank (hex_text k n) ≡ true
unfolding hex_text
no_blank-hex_text zero n = refl
no_blank-hex_text (suc k) n = elim (Bool-cases (ltb n 16)) [
  | inl small ↦ rw (small, hex_digit-blank n) refl
  | inr large ↦ rw large (
      no_blank-append (hex_text k (n / 16)) (hex_digit (n % 16) ∷ []) (no_blank-hex_text k (n / 16))
        (rw (hex_digit-blank (n % 16)) refl))
]

no_blank-replicate : (k : ℕ) → no_blank (replicate k b'0') ≡ true
no_blank-replicate zero = refl
no_blank-replicate (suc k) = no_blank-replicate k

pub no_blank-padded : (w n : ℕ) → no_blank (padded w n) ≡ true
unfolding padded
no_blank-padded w n =
    no_blank-append (replicate (w - length (hex_text 16 n)) b'0') (hex_text 16 n)
      (no_blank-replicate (w - length (hex_text 16 n))) (no_blank-hex_text 16 n)
