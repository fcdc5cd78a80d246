-- ===== src/Pool/Ops.antt =====
-- `alloc`, `free`, `clear` and the pools over them, on a pool whose free slots are known.
use native.Mathlib.Nat.{mul-div_cancel}
use c_wrapper.Prelude.{
  ℕ, zero, suc, ◌+◌, ◌*◌, ◌/◌, ◌<◌, ◌≡◌, ◌≢◌, refl, arith, true, false, none, some, List, [], ◌∷◌,
  ◌||◌, ◌&&◌, not, if◌then◌else◌, ℕ_discrete, ◌==◌, ltb, leb, ==_refl, ==_ne, get_or,
  get_or-set_self, length, length-set, set, ◌∙◌, sym, subst,
}
use c_wrapper.Pool.{
  Pool, is_used, set_used, set_free, get_index, alloc, free, free_at, is_allocated, destroy, clear,
  cleaned,
}
use c_wrapper.Pool.Bitmap.{is_used-set_used, is_used-set_free}
use c_wrapper.Pool.Address.{get_index-slot}
use c_wrapper.Pool.Invariant.{
  IsValid, Chain, holds, Chain-set, chunk_inside, reset-IsValid, slots_from,
}

length-set_used : (used : List ℕ) (i : ℕ) → length (set_used used i) ≡ length used
unfolding set_used
length-set_used used i = length-set used (i / 32) _

length-set_free : (used : List ℕ) (i : ℕ) → length (set_free used i) ≡ length used
unfolding set_free
length-set_free used i = length-set used (i / 32) _

module _ (cap elem start : ℕ) where
  -- An exhausted pool allocates nothing and stays as it is.
  pub alloc-exhausted : (p : Pool) → IsValid cap p [] → alloc cap elem start p ≡ (p, none)
  unfolding alloc
  alloc-exhausted p v = ground arith

  module _ (p : Pool) (i : ℕ) (rest : List ℕ) (v : IsValid cap p (i ∷ rest)) where
    used_before : is_used p.used_map i ≡ false
    used_before = ground (arith, v.exact i, v.chain, ==_refl i)

    used_after : (j : ℕ) → is_used (set_used p.used_map i) j ≡ (i == j || is_used p.used_map j)
    used_after j =
        is_used-set_used p.used_map i j
          (subst (λ n. i / 32 < n) (sym v.map_size) (chunk_inside cap i v.chain.1))

    -- On a valid pool with a free slot, `alloc` hands out the first one, which was not in use, marks
    -- exactly it as used, and leaves the other free slots to be handed out in the same order.
    pub alloc_lem :
        let (p', ptr) = alloc cap elem start p in
        (ptr ≡ some (start + i * elem))
        × (i < cap)
        × (is_used p.used_map i ≡ false)
        × ((j : ℕ) → is_used p'.used_map j ≡ (i == j || is_used p.used_map j))
        × IsValid cap p' rest
    unfolding alloc
    alloc_lem =
        let (head, inside, once, chain) = v.chain in
        rw (head, ==_ne i cap (λ e. omega (arith, e, inside)), alloc)
          (
            refl,
            inside,
            used_before,
            used_after,
            record {
              positive = v.positive;
              map_size = length-set_used p.used_map i ∙ v.map_size;
              next_size = v.next_size;
              chain = chain;
              exact = λ j h. ground (arith, used_after j, v.exact j h);
            },
          )

module _ (cap elem start : ℕ) (p : Pool) where
  -- A null pointer is freed by doing nothing.
  free-null : free cap elem start p 0 ≡ (p, true)
  unfolding free
  free-null = refl

  -- A pointer that is not null and names no slot in use is refused, and nothing changes.
  pub free-refused :
      (ptr : ℕ)
      → ptr ≢ 0
      → is_allocated cap elem start p ptr ≡ false
      → free cap elem start p ptr ≡ (p, false)
  unfolding free free_at is_allocated
  free-refused ptr some_ptr h = ground arith

module _ (cap elem start : ℕ) (sized : 0 < elem) (mapped : 0 < start) where
  module _ (p : Pool) (free_slots : List ℕ) (i : ℕ) (v : IsValid cap p free_slots)
      (inside : i < cap) (used : is_used p.used_map i ≡ true) where
    not_free : holds free_slots i ≡ false
    not_free = ground (arith, v.exact i)

    freed : (j : ℕ) → is_used (set_free p.used_map i) j ≡ (not (i == j) && is_used p.used_map j)
    freed j =
        is_used-set_free p.used_map i j
          (subst (λ n. i / 32 < n) (sym v.map_size) (chunk_inside cap i inside))

    link : get_or (set p.next i p.free_head) i 0 ≡ p.free_head
    link = get_or-set_self p.next i p.free_head 0 (subst (λ n. i < n) (sym v.next_size) inside)

    freed-Chain : Chain cap (set p.next i p.free_head) i (i ∷ free_slots)
    freed-Chain = (
      refl,
      inside,
      not_free,
      rw link (Chain-set cap p.next i p.free_head p.free_head free_slots not_free v.chain),
    )

    free_at_slot : free cap elem start p (start + i * elem) ≡ free_at cap elem start p i
    unfolding free
    free_at_slot =
        rw
          (
            ==_ne (start + i * elem) 0 (λ e. omega arith),
            get_index-slot cap elem start sized mapped i inside,
          )
          refl

    -- On a valid pool, where a slot takes a byte or more and the storage is not at address 0, the
    -- address of a slot in use is freed: exactly that slot is no longer in use, and it is the next
    -- one that is allocated.
    pub free_lem :
        let (p', ok) = free cap elem start p (start + i * elem) in
        (ok ≡ true)
        × ((j : ℕ) → is_used p'.used_map j ≡ (not (i == j) && is_used p.used_map j))
        × IsValid cap p' (i ∷ free_slots)
    unfolding free_at
    free_lem =
        rw (free_at_slot, ==_ne i cap (λ e. omega (arith, e, inside)), used)
          (
            refl,
            freed,
            record {
              positive = v.positive;
              map_size = length-set_free p.used_map i ∙ v.map_size;
              next_size = length-set p.next i p.free_head ∙ v.next_size;
              chain = freed-Chain;
              exact = λ j h. ground (arith, freed j, v.exact j h);
            },
          )

    -- What was freed last is allocated first.
    pub alloc-free :
        (alloc cap elem start (free cap elem start p (start + i * elem)).0).1
        ≡ some (start + i * elem)
    alloc-free =
        let (ok, others, v') = free_lem in
        (alloc_lem cap elem start (free cap elem start p (start + i * elem)).0 i free_slots v').0

  -- `destroy` runs the destructor on an address in use, once, and frees it.
  pub destroy_lem :
      (p : Pool) (ptr : ℕ)
      → destroy cap elem start p ptr ≡ (
        (free cap elem start p ptr).0,
        if is_allocated cap elem start p ptr then some ptr else none,
      )
  unfolding destroy free free_at is_allocated get_index
  destroy_lem p ptr = ground arith

  pub same_slot : (i j : ℕ) → (start + i * elem == start + j * elem) ≡ (i == j)
  same_slot i j = elim (ℕ_discrete i j) [
    | yes e ↦ rw (e, ==_refl j, ==_refl (start + j * elem)) refl
    | no ne ↦
        rw
          (
            ==_ne i j ne,
            ==_ne (start + i * elem) (start + j * elem)
                (λ e. ne (ground (arith, mul-div_cancel i sized, mul-div_cancel j sized))),
          )
          refl
  ]

  holds-cleaned :
      (used : List ℕ) (left i j : ℕ)
      → holds (cleaned cap elem start used left i) (start + j * elem)
        ≡ (leb i j && ltb j (i + left) && is_used used j)
  unfolding cleaned
  holds-cleaned used zero i j = ground arith
  holds-cleaned used (suc left) i j =
      ground (arith, same_slot i j, holds-cleaned used left (suc i) j)

  -- `clear` hands the callback exactly the addresses of the slots in use, and afterwards every slot is
  -- free; a slot takes a byte or more and there is one.
  pub clear_lem :
      (p : Pool)
      → 0 < cap
      → let (p', addresses) = clear cap elem start p in
        IsValid cap p' (slots_from cap 0)
        × ((j : ℕ) → j < cap → holds addresses (start + j * elem) ≡ is_used p.used_map j)
  unfolding clear
  clear_lem p pos = (reset-IsValid cap pos, λ j h. ground (arith, holds-cleaned p.used_map cap 0 j))
