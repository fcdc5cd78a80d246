-- ===== src/Pool/Bitmap.antt =====
-- The bitmap as a set of slots.
use Prim.Native.Nat.{bit_and, bit_or}
use c_wrapper.Prelude.{
  ℕ, ◌-◌, ◌*◌, ◌/◌, ◌%◌, ◌^◌, ◌≤◌, ◌<◌, ◌≡◌, arith, List, ◌&&◌, ◌||◌, not, if◌then◌else◌, ◌==◌, set,
  length, get_or-set_self, get_or-set_ne, ℕ_discrete, ap, ◌∙◌,
}
use c_wrapper.Prelude.Bits.{
  bit, bit-bit_or, bit-bit_and, bit-le, bit-pow, bit-not_pow, bit_and-pow, pow-pos,
}
use c_wrapper.Pool.{bit_mask, chunk, set_used, set_free, is_used}

test : (b k : ℕ) → b ≤ 1 → not (b * 2 ^ k == 0) ≡ (b == 1)
test b k h = grind (arith, pow-pos k)

-- `isUsed` reads the slot's bit.
is_used-bit : (used : List ℕ) (i : ℕ) → is_used used i ≡ (bit (i % 32) (chunk used i) == 1)
unfolding is_used
is_used-bit used i =
    ap (λ x. not (x == 0)) (bit_and-pow (i % 32) (chunk used i))
    ∙ test (bit (i % 32) (chunk used i)) (i % 32) (bit-le (i % 32) (chunk used i))

module _ (used : List ℕ) (i j : ℕ) (inside : i / 32 < length used) where
  chunk-set :
      (x : ℕ) → chunk (set used (i / 32) x) j ≡ (if i / 32 == j / 32 then x else chunk used j)
  chunk-set x = elim (ℕ_discrete (i / 32) (j / 32)) [
    | yes e ↦ ground (arith, get_or-set_self used (i / 32) x 0 inside)
    | no ne ↦ ground (arith, get_or-set_ne used (i / 32) (j / 32) x 0 ne)
  ]

  -- `setUsed` adds the slot and no other.
  pub is_used-set_used : is_used (set_used used i) j ≡ (i == j || is_used used j)
  unfolding set_used
  is_used-set_used = ground (
    arith,
    is_used-bit (set used (i / 32) (bit_or (chunk used i) (bit_mask i))) j,
    is_used-bit used j,
    chunk-set (bit_or (chunk used i) (bit_mask i)),
    bit-bit_or (j % 32) (chunk used i) (bit_mask i),
    bit-pow (j % 32) (i % 32),
    bit-le (j % 32) (chunk used j),
  )

  -- `setFree` removes the slot and no other.
  pub is_used-set_free : is_used (set_free used i) j ≡ (not (i == j) && is_used used j)
  unfolding set_free
  is_used-set_free = ground (
    arith,
    is_used-bit (set used (i / 32) (bit_and (chunk used i) (2 ^ 32 - 1 - bit_mask i))) j,
    is_used-bit used j,
    chunk-set (bit_and (chunk used i) (2 ^ 32 - 1 - bit_mask i)),
    bit-bit_and (j % 32) (chunk used i) (2 ^ 32 - 1 - bit_mask i),
    bit-not_pow 32 (j % 32) (i % 32) (omega arith) (omega arith),
    bit-le (j % 32) (chunk used j),
  )
