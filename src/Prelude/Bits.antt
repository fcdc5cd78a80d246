-- ===== src/Prelude/Bits.antt =====
-- The binary digits of a number, and the bit operations of the machine words digit by digit.
use Prim.Native.Nat.{
  ℕ, zero, suc, ◌+◌, ◌-◌, ◌*◌, ◌/◌, ◌%◌, ◌^◌, ◌≤◌, ◌<◌, min, max, bit_and, bit_or, bitwise, digits,
  bit_and-bitwise, bit_or-bitwise,
}
use mathlib.Core.Path.{◌≡◌, refl, sym, ap, ◌∙◌}
use native.Mathlib.Nat.{pow-suc, mod-lt, mod-eq_of_lt, div-add-mod, add-mul-mod_self_left, add_comm}
use native.Mathlib.Omega.{arith}
use c_wrapper.Prelude.Tests.{◌==◌, if◌then◌else◌}

module _ (z : ℕ → ℕ) (f : ℕ → ℕ → ℕ) where
  -- One more round changes nothing once the first number has run out.
  extra_round : (n x y : ℕ) → x ≤ n → digits z f (suc n) x y ≡ digits z f n x y
  extra_round n zero y le = drained n
    where
      drained : (k : ℕ) → digits z f (suc k) 0 y ≡ digits z f k 0 y
      drained zero = refl
      drained (suc k) = refl
  extra_round zero (suc x) y le = absurd (omega arith)
  extra_round (suc n) (suc x) y le =
      ap (λ upper. upper * 2 + f (suc x % 2) (y % 2))
        (extra_round n (suc x / 2) (y / 2) (omega arith))

  extra_rounds : (k n m x y : ℕ) → x ≤ n → m ≡ k + n → digits z f m x y ≡ digits z f n x y
  extra_rounds zero n m x y le e =
      ap (λ rounds. digits z f rounds x y) {x = m} {y = n} (omega arith)
  extra_rounds (suc k) n m x y le e =
      ap (λ rounds. digits z f rounds x y) {x = m} {y = suc (k + n)} (omega arith)
      ∙ extra_round (k + n) x y (omega arith)
      ∙ extra_rounds k n (k + n) x y le refl

  -- The operation by its lowest digit.
  lowest_digit :
      (x y : ℕ)
      → bitwise z f (suc x) y ≡ bitwise z f (suc x / 2) (y / 2) * 2 + f (suc x % 2) (y % 2)
  lowest_digit x y =
      ap (λ upper. upper * 2 + f (suc x % 2) (y % 2))
        (extra_rounds (x - suc x / 2) (suc x / 2) x (suc x / 2) (y / 2) (omega arith) (omega arith))

pub zero-bit_and : (y : ℕ) → bit_and 0 y ≡ 0
zero-bit_and = bit_and-bitwise 0

pub zero-bit_or : (y : ℕ) → bit_or 0 y ≡ y
zero-bit_or = bit_or-bitwise 0

-- `&` and `|` by their lowest digits.
pub bit_and_step : (x y : ℕ) → bit_and x y ≡ bit_and (x / 2) (y / 2) * 2 + min (x % 2) (y % 2)
bit_and_step zero y = rw (zero-bit_and y, zero-bit_and (y / 2)) (omega arith)
bit_and_step (suc x) y =
    bit_and-bitwise (suc x) y
    ∙ lowest_digit (λ t. zero) min x y
    ∙ ap (λ upper. upper * 2 + min (suc x % 2) (y % 2)) (sym (bit_and-bitwise (suc x / 2) (y / 2)))

pub bit_or_step : (x y : ℕ) → bit_or x y ≡ bit_or (x / 2) (y / 2) * 2 + max (x % 2) (y % 2)
bit_or_step zero y = rw (zero-bit_or y, zero-bit_or (y / 2)) (omega arith)
bit_or_step (suc x) y =
    bit_or-bitwise (suc x) y
    ∙ lowest_digit (λ t. t) max x y
    ∙ ap (λ upper. upper * 2 + max (suc x % 2) (y % 2)) (sym (bit_or-bitwise (suc x / 2) (y / 2)))

-- Digit `k`, counted from the lowest.
abbrev pub bit : ℕ → ℕ → ℕ
bit zero x = x % 2
bit (suc k) x = bit k (x / 2)

pub bit-bit_or : (k a b : ℕ) → bit k (bit_or a b) ≡ max (bit k a) (bit k b)
bit-bit_or zero a b = omega (arith, bit_or_step a b)
bit-bit_or (suc k) a b =
    ap (bit k) {x = bit_or a b / 2} {y = bit_or (a / 2) (b / 2)} (omega (arith, bit_or_step a b))
    ∙ bit-bit_or k (a / 2) (b / 2)

pub bit-bit_and : (k a b : ℕ) → bit k (bit_and a b) ≡ min (bit k a) (bit k b)
bit-bit_and zero a b = omega (arith, bit_and_step a b)
bit-bit_and (suc k) a b =
    ap (bit k) {x = bit_and a b / 2} {y = bit_and (a / 2) (b / 2)} (omega (arith, bit_and_step a b))
    ∙ bit-bit_and k (a / 2) (b / 2)

pub bit-le : (k x : ℕ) → bit k x ≤ 1
bit-le zero x = omega arith
bit-le (suc k) x = bit-le k (x / 2)

pub bit-zero : (k : ℕ) → bit k 0 ≡ 0
bit-zero zero = refl
bit-zero (suc k) = bit-zero k

pub pow-pos : (k : ℕ) → 0 < 2 ^ k
pow-pos zero = omega arith
pow-pos (suc k) = omega (arith, pow-suc 2 k, pow-pos k)

-- A power of two has one digit.
pub bit-pow : (k j : ℕ) → bit k (2 ^ j) ≡ (if k == j then 1 else 0)
bit-pow zero zero = refl
bit-pow zero (suc j) = ground (arith, pow-suc 2 j)
bit-pow (suc k) zero = ground (arith, bit-zero k)
bit-pow (suc k) (suc j) =
    ap (bit k) {x = 2 ^ suc j / 2} {y = 2 ^ j} (omega (arith, pow-suc 2 j))
    ∙ ground (arith, bit-pow k j)

pub pow-lt-pow : (j w : ℕ) → j < w → 2 ^ j < 2 ^ w
pow-lt-pow j zero h = absurd (omega arith)
pow-lt-pow zero (suc w) h = omega (arith, pow-suc 2 w, pow-pos w)
pow-lt-pow (suc j) (suc w) h = omega (arith, pow-suc 2 j, pow-suc 2 w, pow-lt-pow j w (omega arith))

-- A word with all its `w` digits set.
pub bit-ones : (w k : ℕ) → k < w → bit k (2 ^ w - 1) ≡ 1
bit-ones zero k h = absurd (omega arith)
bit-ones (suc w) zero h = omega (arith, pow-suc 2 w, pow-pos w)
bit-ones (suc w) (suc k) h =
    ap (bit k) {x = (2 ^ suc w - 1) / 2} {y = 2 ^ w - 1} (omega (arith, pow-suc 2 w, pow-pos w))
    ∙ bit-ones w k (omega arith)

-- A word with all its `w` digits set but one, `~(1 << j)`.
pub bit-not_pow :
    (w k j : ℕ) → k < w → j < w → bit k (2 ^ w - 1 - 2 ^ j) ≡ (if k == j then 0 else 1)
bit-not_pow zero k j p q = absurd (omega arith)
bit-not_pow (suc w) zero zero p q = ground (arith, pow-suc 2 w, pow-pos w)
bit-not_pow (suc w) zero (suc j) p q =
    ground (arith, pow-suc 2 w, pow-suc 2 j, pow-lt-pow j w (omega arith))
bit-not_pow (suc w) (suc k) zero p q =
    ap (bit k) {x = (2 ^ suc w - 1 - 1) / 2} {y = 2 ^ w - 1} (omega (arith, pow-suc 2 w, pow-pos w))
    ∙ ground (arith, bit-ones w k (omega arith))
bit-not_pow (suc w) (suc k) (suc j) p q =
    ap (bit k) {x = (2 ^ suc w - 1 - 2 ^ suc j) / 2} {y = 2 ^ w - 1 - 2 ^ j}
      (omega (arith, pow-suc 2 w, pow-suc 2 j, pow-lt-pow j w (omega arith)))
    ∙ ground (arith, bit-not_pow w k j (omega arith) (omega arith))

bit_and-zero_below : (n x : ℕ) → x ≤ n → bit_and x 0 ≡ 0
bit_and-zero_below n zero h = zero-bit_and 0
bit_and-zero_below zero (suc x) h = absurd (omega arith)
bit_and-zero_below (suc n) (suc x) h =
    omega (arith, bit_and_step (suc x) 0, bit_and-zero_below n (suc x / 2) (omega arith))

pub bit_and-zero : (x : ℕ) → bit_and x 0 ≡ 0
bit_and-zero x = bit_and-zero_below x x (omega arith)

half-pow : (k : ℕ) → (2 ^ suc k / 2 ≡ 2 ^ k) × (2 ^ suc k % 2 ≡ 0)
half-pow k = omega (arith, pow-suc 2 k)

-- Masking by one digit keeps that digit.
pub bit_and-pow : (k x : ℕ) → bit_and x (2 ^ k) ≡ bit k x * 2 ^ k
bit_and-pow zero x = omega (arith, bit_and_step x 1, bit_and-zero (x / 2))
bit_and-pow (suc k) x =
    let lower = ap (bit_and (x / 2)) {x = 2 ^ suc k / 2} {y = 2 ^ k} (half-pow k).0 in
    omega (
      arith,
      bit_and_step x (2 ^ suc k),
      pow-suc 2 k,
      lower,
      half-pow k,
      bit_and-pow k (x / 2),
      ap (λ t. bit k (x / 2) * t) (pow-suc 2 k),
    )

mod-double : (p x : ℕ) → 0 < p → x / 2 % p * 2 + x % 2 ≡ x % (p * 2)
mod-double p x pos =
    let r = x / 2 % p * 2 + x % 2 in
    let small : r < p * 2 = omega (arith, mod-lt (x / 2) pos) in
    let whole : x ≡ r + p * 2 * (x / 2 / p) = grind (arith, div-add-mod (x / 2) p) in
    sym (mod-eq_of_lt small)
    ∙ sym (add-mul-mod_self_left r (p * 2) (x / 2 / p))
    ∙ ap (λ t. t % (p * 2)) (sym whole)

-- Masking by `w` ones keeps the number modulo `2 ^ w`.
pub bit_and-ones : (w x : ℕ) → bit_and x (2 ^ w - 1) ≡ x % 2 ^ w
bit_and-ones zero x = omega (arith, bit_and-zero x)
bit_and-ones (suc w) x =
    let lower =
      ap (bit_and (x / 2)) {x = (2 ^ suc w - 1) / 2} {y = 2 ^ w - 1}
        (omega (arith, pow-suc 2 w, pow-pos w)) in
    omega (
      arith,
      bit_and_step x (2 ^ suc w - 1),
      pow-suc 2 w,
      pow-pos w,
      lower,
      bit_and-ones w (x / 2),
      mod-double (2 ^ w) x (pow-pos w),
      ap (λ t. x % t) (pow-suc 2 w),
    )

-- `|` of numbers that share no digit is their sum.
pub bit_or-disjoint : (k a b : ℕ) → a < 2 ^ k → bit_or a (b * 2 ^ k) ≡ a + b * 2 ^ k
bit_or-disjoint zero zero b h = omega (arith, zero-bit_or (b * 1))
bit_or-disjoint zero (suc a) b h = absurd (omega arith)
bit_or-disjoint (suc k) a b h =
    let twice : b * 2 ^ suc k ≡ b * (2 ^ k * 2) = ap (◌*◌ b) (pow-suc 2 k) in
    let lower = ap (bit_or (a / 2)) {x = b * 2 ^ suc k / 2} {y = b * 2 ^ k} (omega arith) in
    omega (
      arith,
      bit_or_step a (b * 2 ^ suc k),
      pow-suc 2 k,
      lower,
      bit_or-disjoint k (a / 2) b (omega (arith, pow-suc 2 k)),
    )

bit_or_comm_below : (n a b : ℕ) → a ≤ n → b ≤ n → bit_or a b ≡ bit_or b a
bit_or_comm_below zero a b p q =
    let e : a ≡ 0 = omega arith in let f : b ≡ 0 = omega arith in rw (e, f)
bit_or_comm_below (suc n) a b p q = omega (
  arith,
  bit_or_step a b,
  bit_or_step b a,
  bit_or_comm_below n (a / 2) (b / 2) (omega arith) (omega arith),
)

pub bit_or-disjoint' : (k a b : ℕ) → a < 2 ^ k → bit_or (b * 2 ^ k) a ≡ b * 2 ^ k + a
bit_or-disjoint' k a b h =
    bit_or_comm_below (b * 2 ^ k + a) (b * 2 ^ k) a (omega arith) (omega arith)
    ∙ bit_or-disjoint k a b h
    ∙ add_comm a (b * 2 ^ k)
