-- ===== src/Pool/Address.antt =====
-- Which addresses name which slots.
use native.Mathlib.Nat.{mul-mod_left, mul-div_cancel, div-lt_iff_lt-mul, div-add-mod'}
use c_wrapper.Prelude.{ℕ, ◌+◌, ◌-◌, ◌*◌, ◌/◌, ◌%◌, ◌<◌, ◌≡◌, ◌≢◌, arith}
use c_wrapper.Pool.{get_index}

module _ (cap elem start : ℕ) (sized : 0 < elem) (mapped : 0 < start) where
  product-lt : (i : ℕ) → i < cap → i * elem < cap * elem
  product-lt i h = grind arith

  -- The address of a slot names that slot.
  pub get_index-slot : (i : ℕ) → i < cap → get_index cap elem start (start + i * elem) ≡ i
  unfolding get_index
  get_index-slot i h =
      let offset : start + i * elem - start ≡ i * elem = omega arith in
      rw offset (ground (arith, product-lt i h, mul-mod_left i elem, mul-div_cancel i sized))

  whole : (o : ℕ) → o < cap * elem → o % elem ≡ 0 → (o / elem < cap) × (o / elem * elem ≡ o)
  whole o h e = ((div-lt_iff_lt-mul sized).1 h, omega (arith, div-add-mod' o elem))

  -- Whatever names a slot is the address of that slot.
  pub get_index-inverse :
      (ptr : ℕ)
      → get_index cap elem start ptr ≢ cap
      → (get_index cap elem start ptr < cap) × (ptr ≡ start + get_index cap elem start ptr * elem)
  unfolding get_index
  get_index-inverse ptr h = ground (arith, whole (ptr - start))
