-- ===== src/Pool.antt =====
-- common/Pool.h: `Pool<T, Capacity>`, slots of equal size in one storage, with a bitmap of the used
-- ones and a linked list of the free ones; and the two pools over it. A pointer is an address, 0 the
-- null pointer; `start` is the address of `mStorage` and `elem` is `sizeof(T)`.
pub mod Bitmap
pub mod Address
pub mod Invariant
pub mod Ops
pub mod Objects
mod Tests
use Prim.Native.Nat.{bit_and, bit_or}
use c_wrapper.Prelude.{
  ℕ, zero, suc, ◌+◌, ◌-◌, ◌*◌, ◌/◌, ◌%◌, ◌^◌, Bool, true, false, Option, none, some, List, [], ◌∷◌,
  ◌&&◌, not, if◌then◌else◌, ltb, leb, ◌==◌, get_or, set, replicate,
}

-- `mUsedMap`, `mNext`, `mFreeHead`.
pub record Pool : Type 0 where
  pub used_map : List ℕ
  pub next : List ℕ
  pub free_head : ℕ

-- `bitMask(index)`; the shift is by less than 32.
abbrev pub bit_mask : ℕ → ℕ
bit_mask index = 2 ^ (index % 32)

abbrev pub chunk : List ℕ → ℕ → ℕ
chunk used index = get_or used (index / 32) 0

-- `setUsed`.
pub set_used : List ℕ → ℕ → List ℕ
set_used used index = set used (index / 32) (bit_or (chunk used index) (bit_mask index))

-- `setFree`; `~` is taken in 32 bits.
pub set_free : List ℕ → ℕ → List ℕ
set_free used index =
    set used (index / 32) (bit_and (chunk used index) (2 ^ 32 - 1 - bit_mask index))

-- `isUsed`.
pub is_used : List ℕ → ℕ → Bool
is_used used index = not (bit_and (chunk used index) (bit_mask index) == 0)

-- The loop that links each slot to the next one, from slot `i` on, and the last slot to none.
pub link_from : ℕ → ℕ → List ℕ
link_from zero i = []
link_from (suc left) i = suc i ∷ link_from left (suc i)

module _ (cap : ℕ) where
  -- `BITMAP_SIZE`.
  abbrev pub bitmap_size : ℕ
  bitmap_size = 1 + (cap - 1) / 32

  -- The constructor, and what `reset` stores; slot `Capacity - 1` is linked to INVALID_INDEX, which is
  -- `Capacity`.
  pub reset : Pool
  reset = record { used_map = replicate bitmap_size 0; next = link_from cap 0; free_head = 0 }

module _ (cap elem start : ℕ) where
  -- `getIndex`; INVALID_INDEX is `cap`.
  pub get_index : ℕ → ℕ
  get_index ptr =
      if ptr == 0
      then cap
      else if ltb ptr start
      then cap
      else if leb (cap * elem) (ptr - start)
      then cap
      else if not ((ptr - start) % elem == 0)
      then cap
      else (ptr - start) / elem

  -- `alloc`: the address of the slot, or none when the pool is exhausted.
  pub alloc : Pool → Pool × Option ℕ
  alloc p = if p.free_head == cap then (p, none) else (
    record p {
      used_map = set_used p.used_map p.free_head;
      free_head = get_or p.next p.free_head 0;
    },
    some (start + p.free_head * elem),
  )

  free_at : Pool → ℕ → Pool × Bool
  free_at p index =
      if index == cap then (p, false) else if not (is_used p.used_map index) then (p, false) else (
        record p {
          used_map = set_free p.used_map index;
          next = set p.next index p.free_head;
          free_head = index;
        },
        true,
      )

  -- `free`.
  pub free : Pool → ℕ → Pool × Bool
  unfolding free_at
  free p ptr = if ptr == 0 then (p, true) else free_at p (get_index ptr)

  -- `isAllocated`.
  pub is_allocated : Pool → ℕ → Bool
  is_allocated p ptr = not (get_index ptr == cap) && is_used p.used_map (get_index ptr)

  -- The slots from `i` on that `clear` hands to the cleanup callback, in order.
  pub cleaned : List ℕ → ℕ → ℕ → List ℕ
  cleaned used zero i = []
  cleaned used (suc left) i =
      let rest = cleaned used left (suc i) in
      if is_used used i then (start + i * elem) ∷ rest else rest

  -- `clear`.
  pub clear : Pool → Pool × List ℕ
  clear p = (reset cap, cleaned p.used_map cap 0)

  -- `DataPool::free` and `ObjectPool::destroy`, with the address whose destructor runs.
  pub destroy : Pool → ℕ → Pool × Option ℕ
  destroy p ptr =
      if ptr == 0
      then (p, none)
      else if not (is_allocated p ptr)
      then (p, none)
      else ((free p ptr).0, some ptr)
