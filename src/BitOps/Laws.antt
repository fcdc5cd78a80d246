-- ===== src/BitOps/Laws.antt =====
-- What the bit-field functions compute, for every width and offset.
use Prim.Native.Nat.{bit_and}
use native.Mathlib.Nat.{div-le_self, zero-mod}
use c_wrapper.Prelude.{
  ℕ, ◌-◌, ◌/◌, ◌%◌, ◌^◌, ◌≤◌, ◌<◌, ◌≡◌, arith, if◌then◌else◌, leb, le→leb, leb_of_lt, dec_lt,
  mod-eq_of_lt, sym, ◌∙◌,
}
use c_wrapper.Prelude.Bits.{bit_and-ones, pow-lt-pow}
use c_wrapper.BitOps.{extract, extract_dynamic}

-- A power of two is monotone in its exponent.
pow_mono : (a b : ℕ) → a ≤ b → 2 ^ a ≤ 2 ^ b
pow_mono a b h = elim (dec_lt a b) [
  | yes lt ↦ omega (arith, pow-lt-pow a b lt)
  | no ge ↦ let e : a ≡ b = omega arith in rw e (omega arith)
]

module _ (bits : ℕ) where
  -- The mask of a field at least as wide as the word keeps a word whole, any other keeps `width` bits.
  masked :
      (x width : ℕ)
      → x < 2 ^ bits
      → bit_and x (if leb bits width then 2 ^ bits - 1 else 2 ^ width - 1) ≡ x % 2 ^ width
  masked x width fits = elim (dec_lt width bits) [
    | yes narrow ↦ rw (leb_of_lt width bits narrow) (bit_and-ones width x)
    | no wide ↦ rw (le→leb bits width (omega arith)) (
        bit_and-ones bits x
        ∙ mod-eq_of_lt fits
        ∙ sym (mod-eq_of_lt (omega (arith, pow_mono bits width (omega arith)))))
  ]

  shifted-fits : (x offset : ℕ) → x < 2 ^ bits → x / 2 ^ offset < 2 ^ bits
  shifted-fits x offset fits = omega (arith, div-le_self x (2 ^ offset))

  -- `extract` gives the `width` bits of the value from bit `offset` on, also where `width` reaches
  -- past the word's end.
  pub extract_lem :
      (offset width value : ℕ)
      → value < 2 ^ bits
      → extract bits offset width value ≡ value / 2 ^ offset % 2 ^ width
  unfolding extract
  extract_lem offset width value fits =
      masked (value / 2 ^ offset) width (shifted-fits value offset fits)

  div-eq-zero : (x d : ℕ) → x < d → x / d ≡ 0
  div-eq-zero x d h = grind arith

  -- `extract_dynamic` gives them for every `offset`, those past the word's end included.
  pub extract_dynamic_lem :
      (value offset width : ℕ)
      → value < 2 ^ bits
      → extract_dynamic bits value offset width ≡ value / 2 ^ offset % 2 ^ width
  unfolding extract_dynamic
  extract_dynamic_lem value offset width fits = elim (dec_lt offset bits) [
    | yes inside ↦
        rw (leb_of_lt offset bits inside)
          (masked (value / 2 ^ offset) width (shifted-fits value offset fits))
    | no past ↦
        rw
          (
            le→leb bits offset (omega arith),
            div-eq-zero value (2 ^ offset) (omega (arith, pow_mono bits offset (omega arith))),
          )
          (sym (zero-mod (2 ^ width)))
  ]
