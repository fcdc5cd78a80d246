-- ===== src/BitOps.antt =====
-- utils/BitOps.h. `bits` is `sizeof(T) * 8`, and a value of `T` is a number below `2 ^ bits`. The
-- template functions and the `_dynamic` ones compute alike; they differ in what they demand of
-- `offset`.
pub mod Laws
mod Tests
use Prim.Native.Nat.{bit_and}
use c_wrapper.Prelude.{ℕ, ◌-◌, ◌/◌, ◌^◌, leb, if◌then◌else◌}

module _ (bits : ℕ) where
  -- `mask<width, T>()`: `~0`, or `(1 << width) - 1`.
  pub mask : ℕ → ℕ
  mask width = if leb bits width then 2 ^ bits - 1 else 2 ^ width - 1

  -- `mask_dynamic<T>(width)`.
  pub mask_dynamic : ℕ → ℕ
  mask_dynamic width = if leb bits width then 2 ^ bits - 1 else 2 ^ width - 1

  -- `extract<offset, width>(data)`, which compiles for `offset < bits` only.
  pub extract : ℕ → ℕ → ℕ → ℕ
  unfolding mask
  extract offset width value = bit_and (value / 2 ^ offset) (mask width)

  -- `extract_dynamic(data, offset, width)`.
  pub extract_dynamic : ℕ → ℕ → ℕ → ℕ
  unfolding mask_dynamic
  extract_dynamic value offset width =
      if leb bits offset then 0 else bit_and (value / 2 ^ offset) (mask_dynamic width)
