-- ===== src/Observers/Lookup.antt =====
-- The loops that look for an entry.
use c_wrapper.Prelude.{ℕ, zero, suc, ◌+◌, ◌≤◌, ◌<◌, ◌≡◌, arith, Bool, true, false, dec_lt}
use c_wrapper.Observers.{first}

pub first-le :
    (test : ℕ → Bool) (left i : ℕ) → (i ≤ first test left i) × (first test left i ≤ i + left)
unfolding first
first-le test zero i = ground arith
first-le test (suc left) i = ground (arith, first-le test left (suc i))

-- An index that is found meets the test.
pub first-found :
    (test : ℕ → Bool) (left i : ℕ) → first test left i < i + left → test (first test left i) ≡ true
unfolding first
first-found test zero i h = absurd (omega arith)
first-found test (suc left) i h = ground (arith, first-found test left (suc i))

-- No index before the one that is found meets it.
pub first-least : (test : ℕ → Bool) (left i j : ℕ) → i ≤ j → j < first test left i → test j ≡ false
unfolding first
first-least test zero i j low h = absurd (omega arith)
first-least test (suc left) i j low h = elim (dec_lt i j) [
  | yes lt ↦ ground (arith, first-least test left (suc i) j)
  | no ge ↦ let e : i ≡ j = omega arith in ground arith
]

-- Where no index meets the test, none is found.
pub first-none :
    (test : ℕ → Bool) (left i : ℕ) → ((j : ℕ) → test j ≡ false) → first test left i ≡ i + left
unfolding first
first-none test zero i h = omega arith
first-none test (suc left) i h = ground (arith, h i, first-none test left (suc i) h)
