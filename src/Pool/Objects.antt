-- ===== src/Pool/Objects.antt =====
-- `ObjectPool` and `DataPool` of common/Pool.h: what happens to the objects in the slots.
pub mod Lifetime
use c_wrapper.Prelude.{ℕ, Option, none, some, List, [], ◌∷◌, ◌++◌, map}
use c_wrapper.Pool.{Pool, alloc, destroy, clear}

-- The object at an address is constructed, or destroyed.
pub data Event : Type 0 where
  constructs destroys : (address : ℕ) → Event

abbrev pub at : (ℕ → Event) → Option ℕ → List Event
at e none = []
at e (some address) = e address ∷ []

-- A call of `create` or `DataPool::alloc`, of `destroy` or `DataPool::free` with any pointer, or of
-- `clear`, which the destructor calls too.
pub data Op : Type 0 where
  create : Op
  destroy_at : (ptr : ℕ) → Op
  clear_all : Op

module _ (cap elem start : ℕ) where
  pub step : Op → Pool → Pool × List Event
  step create p = let (p', got) = alloc cap elem start p in (p', at constructs got)
  step (destroy_at ptr) p = let (p', gone) = destroy cap elem start p ptr in (p', at destroys gone)
  step clear_all p = let (p', gone) = clear cap elem start p in (p', map destroys gone)

  pub run : List Op → Pool → Pool × List Event
  run [] p = (p, [])
  run (o ∷ os) p =
      let (p', events) = step o p in let (p'', later) = run os p' in (p'', events ++ later)
