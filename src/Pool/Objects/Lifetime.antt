-- ===== src/Pool/Objects/Lifetime.antt =====
-- From the construction of an object in a slot to its destruction.
use c_wrapper.Prelude.{
  ℕ, zero, suc, ◌+◌, ◌*◌, ◌<◌, ◌≡◌, ◌≢◌, refl, arith, Bool, true, false, none, some, List, [], ◌∷◌,
  ◌++◌, ◌&&◌, if◌then◌else◌, ◌==◌, ltb, leb, map, Bool-cases, inl, inr,
}
use c_wrapper.Pool.{Pool, is_used, get_index, free, is_allocated, destroy, clear, cleaned, reset}
use c_wrapper.Pool.Address.{get_index-inverse}
use c_wrapper.Pool.Invariant.{IsValid, reset-IsValid, slots_from, holds-slots_from}
use c_wrapper.Pool.Ops.{alloc-exhausted, alloc_lem, free_lem, same_slot}
use c_wrapper.Pool.Objects.{
  Event, constructs, destroys, Op, create, destroy_at, clear_all, step, run,
}

abbrev pub is_made : ℕ → Event → ℕ
is_made a (constructs b) = if b == a then 1 else 0
is_made a (destroys b) = 0

abbrev pub is_ended : ℕ → Event → ℕ
is_ended a (constructs b) = 0
is_ended a (destroys b) = if b == a then 1 else 0

-- How often an object at the address was constructed.
abbrev pub made : ℕ → List Event → ℕ
made a [] = 0
made a (e ∷ es) = is_made a e + made a es

-- How often it was destroyed.
abbrev pub ended : ℕ → List Event → ℕ
ended a [] = 0
ended a (e ∷ es) = is_ended a e + ended a es

abbrev pub live : Bool → ℕ
live used = if used then 1 else 0

made-append : (a : ℕ) (es ds : List Event) → made a (es ++ ds) ≡ made a es + made a ds
made-append a [] ds = omega arith
made-append a (e ∷ es) ds = omega (arith, made-append a es ds)

ended-append : (a : ℕ) (es ds : List Event) → ended a (es ++ ds) ≡ ended a es + ended a ds
ended-append a [] ds = omega arith
ended-append a (e ∷ es) ds = omega (arith, ended-append a es ds)

module _ (cap elem start : ℕ) (sized : 0 < elem) (mapped : 0 < start) where
  -- The pool is in order after these events, and for each slot the objects constructed are those
  -- destroyed and the one that lives there.
  pub record Kept (p p' : Pool) (es : List Event) : Type 0 where
    pub free_slots : List ℕ
    pub valid : IsValid cap p' free_slots
    pub balance :
        (i : ℕ)
        → i < cap
        → made (start + i * elem) es + live (is_used p.used_map i)
          ≡ ended (start + i * elem) es + live (is_used p'.used_map i)

  create-Kept :
      (p : Pool) (free_slots : List ℕ)
      → IsValid cap p free_slots
      → let (p', es) = step cap elem start create p in Kept p p' es
  unfolding step
  create-Kept p [] v =
      rw (alloc-exhausted cap elem start p v)
        (record { free_slots = []; valid = v; balance = λ i h. refl })
  create-Kept p (j ∷ rest) v =
      let (got, inside, was, now, v') = alloc_lem cap elem start p j rest v in
      rw got (record {
        free_slots = rest;
        valid = v';
        balance = λ i h. ground (arith, now i, same_slot cap elem start sized mapped j i, was);
      })

  allocated :
      (p : Pool) (ptr : ℕ)
      → is_allocated cap elem start p ptr ≡ true
      → (i : ℕ) × (i < cap) × (ptr ≡ start + i * elem) × (is_used p.used_map i ≡ true)
  unfolding is_allocated
  allocated p ptr h =
      let (inside, e) = get_index-inverse cap elem start sized mapped ptr (ground arith) in
      (get_index cap elem start ptr, inside, e, ground arith)

  made-ended : (a : ℕ) (xs : List ℕ) → made a (map destroys xs) ≡ 0
  made-ended a [] = refl
  made-ended a (x ∷ xs) = omega (arith, made-ended a xs)

  ended-cleaned :
      (used : List ℕ) (left i j : ℕ)
      → ended (start + j * elem) (map destroys (cleaned cap elem start used left i))
        ≡ live (leb i j && ltb j (i + left) && is_used used j)
  unfolding cleaned
  ended-cleaned used zero i j = ground arith
  ended-cleaned used (suc left) i j =
      ground (arith, same_slot cap elem start sized mapped i j, ended-cleaned used left (suc i) j)

  destroy-none :
      (p : Pool) (ptr : ℕ)
      → is_allocated cap elem start p ptr ≡ false
      → destroy cap elem start p ptr ≡ (p, none)
  unfolding destroy
  destroy-none p ptr h = ground arith

  destroy-some :
      (p : Pool) (ptr : ℕ)
      → ptr ≢ 0
      → is_allocated cap elem start p ptr ≡ true
      → destroy cap elem start p ptr ≡ ((free cap elem start p ptr).0, some ptr)
  unfolding destroy
  destroy-some p ptr h k = ground arith

  slot-Kept :
      (p : Pool) (free_slots : List ℕ) (i : ℕ)
      → IsValid cap p free_slots
      → i < cap
      → is_used p.used_map i ≡ true
      → Kept p (free cap elem start p (start + i * elem)).0 (destroys (start + i * elem) ∷ [])
  slot-Kept p free_slots i v inside used =
      let (ok, now, v') = free_lem cap elem start sized mapped p free_slots i v inside used in
      record {
        free_slots = i ∷ free_slots;
        valid = v';
        balance = λ j h. ground (arith, now j, same_slot cap elem start sized mapped i j, used);
      }

  destroy-Kept :
      (p : Pool) (free_slots : List ℕ) (ptr : ℕ)
      → IsValid cap p free_slots
      → let (p', es) = step cap elem start (destroy_at ptr) p in Kept p p' es
  unfolding step
  destroy-Kept p free_slots ptr v = elim (Bool-cases (is_allocated cap elem start p ptr)) [
    | inl there ↦
        let (i, inside, e, used) = allocated p ptr there in
        rw (destroy-some p ptr (λ z. omega (arith, z, e)) there, e)
          (slot-Kept p free_slots i v inside used)
    | inr elsewhere ↦
        rw (destroy-none p ptr elsewhere)
          (record { free_slots = free_slots; valid = v; balance = λ i h. refl })
  ]

  clear-Kept :
      (p : Pool) (free_slots : List ℕ)
      → IsValid cap p free_slots
      → let (p', es) = step cap elem start clear_all p in Kept p p' es
  unfolding step clear
  clear-Kept p free_slots v = record {
    free_slots = slots_from cap 0;
    valid = reset-IsValid cap v.positive;
    balance = λ i h. ground (
      arith,
      made-ended (start + i * elem) (cleaned cap elem start p.used_map cap 0),
      ended-cleaned p.used_map cap 0 i,
      (reset-IsValid cap v.positive).exact i h,
      holds-slots_from cap 0 i,
    );
  }

  step-Kept :
      (o : Op) (p : Pool) (free_slots : List ℕ)
      → IsValid cap p free_slots
      → let (p', es) = step cap elem start o p in Kept p p' es
  step-Kept create p free_slots v = create-Kept p free_slots v
  step-Kept (destroy_at ptr) p free_slots v = destroy-Kept p free_slots ptr v
  step-Kept clear_all p free_slots v = clear-Kept p free_slots v

  run-Kept :
      (os : List Op) (p : Pool) (free_slots : List ℕ)
      → IsValid cap p free_slots
      → let (p', es) = run cap elem start os p in Kept p p' es
  unfolding run
  run-Kept [] p free_slots v = record { free_slots = free_slots; valid = v; balance = λ i h. refl }
  run-Kept (o ∷ os) p free_slots v =
      let (p', es) = step cap elem start o p in
      let k = step-Kept o p free_slots v in
      let l = run-Kept os p' k.free_slots k.valid in
      let later = (run cap elem start os p').1 in
      record {
        free_slots = l.free_slots;
        valid = l.valid;
        balance = λ i h. omega (
          arith,
          k.balance i h,
          l.balance i h,
          made-append (start + i * elem) es later,
          ended-append (start + i * elem) es later,
        );
      }

  reset_unused : (i : ℕ) → 0 < cap → i < cap → is_used (reset cap).used_map i ≡ false
  reset_unused i pos h = ground (arith, (reset-IsValid cap pos).exact i h, holds-slots_from cap 0 i)

  cleared :
      (p : Pool) (i : ℕ)
      → 0 < cap
      → i < cap
      → is_used (step cap elem start clear_all p).0.used_map i ≡ false
  unfolding step clear
  cleared p i pos h = reset_unused i pos h

  -- In a pool with slots of a byte or more, not at address 0, whatever is created, destroyed (also
  -- with pointers that are none of the pool's, or twice) and cleared: the objects that were
  -- constructed in a slot are those that were destroyed, and one more where the slot is in use; and
  -- once the pool itself is destroyed they are exactly those that were destroyed.
  pub objects_lem :
      (os : List Op) (i : ℕ)
      → i < cap
      → let (p, es) = run cap elem start os (reset cap) in
        let (q, last) = step cap elem start clear_all p in
        let address = start + i * elem in
        (made address es ≡ ended address es + live (is_used p.used_map i))
        × (made address (es ++ last) ≡ ended address (es ++ last))
  objects_lem os i h =
      let pos : 0 < cap = omega arith in
      let (p, es) = run cap elem start os (reset cap) in
      let (q, last) = step cap elem start clear_all p in
      let k = run-Kept os (reset cap) (slots_from cap 0) (reset-IsValid cap pos) in
      let l = clear-Kept p k.free_slots k.valid in
      let before : live (is_used (reset cap).used_map i) ≡ 0 = rw (reset_unused i pos h) refl in
      let after : live (is_used q.used_map i) ≡ 0 = rw (cleared p i pos h) refl in
      let kept : made (start + i * elem) es
          ≡ ended (start + i * elem) es + live (is_used p.used_map i) =
        omega (arith, k.balance i h, before) in
      (
        kept,
        omega (
          arith,
          kept,
          after,
          l.balance i h,
          made-append (start + i * elem) es last,
          ended-append (start + i * elem) es last,
        ),
      )
