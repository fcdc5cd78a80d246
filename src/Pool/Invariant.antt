-- ===== src/Pool/Invariant.antt =====
-- The free list is a chain of distinct slots, and holds exactly the slots that the bitmap leaves free.
use c_wrapper.Prelude.{
  ℕ, zero, suc, ◌+◌, ◌/◌, ◌<◌, ◌≡◌, refl, arith, Bool, true, false, List, [], ◌∷◌, ◌||◌, ◌&&◌, not,
  ◌==◌, get_or, get_or-set_ne, length, length-replicate, set, replicate, ap, ◌∙◌, ltb, leb,
}
use Prim.Native.Nat.{bit_and}
use c_wrapper.Prelude.Bits.{zero-bit_and}
use c_wrapper.Pool.{Pool, bitmap_size, reset, link_from, is_used, bit_mask}

-- `x` is one of the list.
abbrev pub holds : List ℕ → ℕ → Bool
holds [] x = false
holds (y ∷ ys) x = y == x || holds ys x

-- From `head` the links lead through the slots of the list and end at INVALID_INDEX, and no slot comes
-- twice.
abbrev pub Chain : ℕ → List ℕ → ℕ → List ℕ → Type 0
Chain cap next head [] = head ≡ cap
Chain cap next head (x ∷ xs) =
    (head ≡ x) × (x < cap) × (holds xs x ≡ false) × Chain cap next (get_or next x 0) xs

-- The pool's state with the list of its free slots in the order in which they will be allocated.
pub record IsValid (cap : ℕ) (p : Pool) (free_slots : List ℕ) : Type 0 where
  pub positive : 0 < cap
  pub map_size : length p.used_map ≡ bitmap_size cap
  pub next_size : length p.next ≡ cap
  pub chain : Chain cap p.next p.free_head free_slots
  pub exact : (i : ℕ) → i < cap → is_used p.used_map i ≡ not (holds free_slots i)

pub chunk_inside : (cap i : ℕ) → i < cap → i / 32 < bitmap_size cap
chunk_inside cap i h = omega arith

-- A link outside of the chain may be written.
pub Chain-set :
    (cap : ℕ) (next : List ℕ) (i v head : ℕ) (xs : List ℕ)
    → holds xs i ≡ false
    → Chain cap next head xs
    → Chain cap (set next i v) head xs
Chain-set cap next i v head [] h c = c
Chain-set cap next i v head (x ∷ xs) h c =
    ground (arith, get_or-set_ne next i x v 0, Chain-set cap next i v (get_or next x 0) xs)

pub Chain-inside :
    (cap : ℕ) (next : List ℕ) (head i : ℕ) (xs : List ℕ)
    → Chain cap next head xs
    → holds xs i ≡ true
    → i < cap
Chain-inside cap next head i [] c h = cc
Chain-inside cap next head i (x ∷ xs) c h =
    ground (arith, Chain-inside cap next (get_or next x 0) i xs)

-- The slots from `i` on.
abbrev pub slots_from : ℕ → ℕ → List ℕ
slots_from zero i = []
slots_from (suc left) i = i ∷ slots_from left (suc i)

pub holds-slots_from : (left i x : ℕ) → holds (slots_from left i) x ≡ (leb i x && ltb x (i + left))
holds-slots_from zero i x = ground arith
holds-slots_from (suc left) i x = ground (arith, holds-slots_from left (suc i) x)

length-link_from : (left i : ℕ) → length (link_from left i) ≡ left
unfolding link_from
length-link_from zero i = refl
length-link_from (suc left) i = omega (arith, length-link_from left (suc i))

get_or-link_from : (left i k : ℕ) → k < left → get_or (link_from left i) k 0 ≡ suc (i + k)
unfolding link_from
get_or-link_from zero i k h = absurd (omega arith)
get_or-link_from (suc left) i zero h = omega arith
get_or-link_from (suc left) i (suc k) h =
    omega (arith, get_or-link_from left (suc i) k (omega arith))

linked : (cap left i : ℕ) → i + left ≡ cap → Chain cap (link_from cap 0) i (slots_from left i)
linked cap zero i e = omega arith
linked cap (suc left) i e =
    let next : get_or (link_from cap 0) i 0 ≡ suc i = omega (arith, get_or-link_from cap 0 i) in
    (
      refl,
      omega arith,
      ground (arith, holds-slots_from left (suc i) i),
      rw next (linked cap left (suc i) (omega arith)),
    )

get_or-replicate : (n k : ℕ) → get_or {A = ℕ} (replicate n 0) k 0 ≡ 0
get_or-replicate zero k = refl
get_or-replicate (suc n) zero = refl
get_or-replicate (suc n) (suc k) = get_or-replicate n k

is_used-replicate : (n i : ℕ) → is_used (replicate n 0) i ≡ false
unfolding is_used
is_used-replicate n i =
    ap (λ x. not (bit_and x (bit_mask i) == 0)) (get_or-replicate n (i / 32))
    ∙ ap (λ x. not (x == 0)) (zero-bit_and (bit_mask i))

-- A pool that is new or has been reset has every slot free.
pub reset-IsValid : (cap : ℕ) → 0 < cap → IsValid cap (reset cap) (slots_from cap 0)
unfolding reset
reset-IsValid cap pos = record {
  positive = pos;
  map_size = length-replicate (bitmap_size cap) 0;
  next_size = length-link_from cap 0;
  chain = linked cap cap 0 (omega arith);
  exact = λ i h. ground (arith, holds-slots_from cap 0 i, is_used-replicate (bitmap_size cap) i);
}
