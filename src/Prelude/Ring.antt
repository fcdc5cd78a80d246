-- ===== src/Prelude/Ring.antt =====
-- Indices that go round a ring of `cap` places, in `size_t` arithmetic.
use Prim.Native.Nat.{ℕ, ◌+◌, ◌-◌, ◌%◌, ◌^◌, ◌≤◌, ◌<◌}
use mathlib.Core.Path.{◌≡◌, ◌∙◌, ap}
use mathlib.Core.Logic.{◌⊎◌, inl, inr}
use native.Mathlib.Nat.{mod-add-mod, mod-eq_of_lt, mod-eq-sub-mod}
use native.Mathlib.Decide.{dec_lt}
use native.Mathlib.Omega.{arith}

abbrev pub size_mod : ℕ
size_mod = 2 ^ 64

-- `size_t` addition and subtraction.
abbrev pub add_size : ℕ → ℕ → ℕ
add_size a b = (a + b) % size_mod

abbrev pub sub_size : ℕ → ℕ → ℕ
sub_size a b = (a + size_mod - b) % size_mod

pub wrap_below : (h i cap : ℕ) → h + i < cap → (h + i) % cap ≡ h + i
wrap_below h i cap p = mod-eq_of_lt p

pub wrap_past : (h i cap : ℕ) → h < cap → i ≤ cap → cap ≤ h + i → (h + i) % cap ≡ h + i - cap
wrap_past h i cap p q r =
    mod-eq-sub-mod {n = h + i} {m = cap} r ∙ mod-eq_of_lt {n = h + i - cap} {m = cap} (omega arith)

pub wrap_cases :
    (h i cap : ℕ)
    → h < cap
    → i ≤ cap
    → ((h + i < cap) × ((h + i) % cap ≡ h + i)) ⊎ ((cap ≤ h + i) × ((h + i) % cap + cap ≡ h + i))
wrap_cases h i cap p q = elim (dec_lt (h + i) cap) [
  | yes below ↦ inl (below, wrap_below h i cap below)
  | no past ↦ inr (omega arith, omega (arith, wrap_past h i cap p q (omega arith)))
]

-- Two places fewer than `cap` steps from `h` are the same only after as many steps.
pub wrap-injective :
    (h i j cap : ℕ) → h < cap → i < cap → j < cap → (h + i) % cap ≡ (h + j) % cap → i ≡ j
wrap-injective h i j cap p q r e = elim (dec_lt (h + i) cap) [
  | yes a ↦ elim (dec_lt (h + j) cap) [
    | yes b ↦ omega (arith, wrap_below h i cap a, wrap_below h j cap b)
    | no b ↦ omega (arith, wrap_below h i cap a, wrap_past h j cap p (omega arith) (omega arith))
  ]
  | no a ↦ elim (dec_lt (h + j) cap) [
    | yes b ↦ omega (arith, wrap_past h i cap p (omega arith) (omega arith), wrap_below h j cap b)
    | no b ↦ omega (
      arith,
      wrap_past h i cap p (omega arith) (omega arith),
      wrap_past h j cap p (omega arith) (omega arith),
    )
  ]
]

pub wrap_add : (h i j cap : ℕ) → ((h + i) % cap + j) % cap ≡ (h + (i + j)) % cap
wrap_add h i j cap = mod-add-mod (h + i) cap j ∙ ap (λ k. k % cap) (omega arith)

-- Moving the end of a stretch of `n` places by `k`, in `size_t` arithmetic that does not wrap.
pub ring_grow :
    (f n r k cap : ℕ)
    → r ≡ (f + n) % cap
    → r + k < size_mod
    → n + k < size_mod
    → add_size r k % cap ≡ (f + add_size n k) % cap
ring_grow f n r k cap e p q =
    ap (λ x. x % cap) {x = add_size r k} {y = r + k} (omega arith)
    ∙ ap (λ x. (x + k) % cap) e
    ∙ wrap_add f n k cap
    ∙ ap (λ x. (f + x) % cap) {x = n + k} {y = add_size n k} (omega arith)

-- Moving its start by `k` leaves its end where it was.
pub ring_shrink :
    (f n k cap : ℕ)
    → k ≤ n
    → n < size_mod
    → f + k < size_mod
    → (add_size f k % cap + sub_size n k) % cap ≡ (f + n) % cap
ring_shrink f n k cap le p q =
    ap (λ x. (x % cap + sub_size n k) % cap) {x = add_size f k} {y = f + k} (omega arith)
    ∙ wrap_add f k (sub_size n k) cap
    ∙ ap (λ x. (f + x) % cap) {x = k + sub_size n k} {y = n} (omega arith)
