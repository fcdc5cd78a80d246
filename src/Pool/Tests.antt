-- ===== src/Pool/Tests.antt =====
-- Runs of a pool of three slots of eight bytes at the address 100, and its laws there.
use c_wrapper.Prelude.{
  ℕ, zero, suc, ◌++◌, ◌+◌, ◌*◌, ◌<◌, ◌≡◌, ◌≢◌, refl, arith, true, false, some, [], ◌∷◌, ◌&&◌, ◌||◌,
  not, ◌==◌,
}
use c_wrapper.Pool.{
  Pool, is_used, set_used, link_from, reset, get_index, alloc, free, is_allocated, clear,
}
use c_wrapper.Pool.Invariant.{IsValid, slots_from, holds}
use c_wrapper.Pool.Objects
use c_wrapper.Pool.Objects.{create, destroy_at, clear_all}
use c_wrapper.Pool.Objects.Lifetime.{made, ended, live, objects_lem}
use c_wrapper.Pool.Ops.{alloc_lem, free-refused, free_lem, clear_lem}

abbrev fresh : Pool
fresh = record { used_map = 0 ∷ []; next = 1 ∷ 2 ∷ 3 ∷ []; free_head = 0 }

fresh-reset : reset 3 ≡ fresh
unfolding reset link_from
fresh-reset = refl

abbrev two_left : Pool
two_left = record { used_map = 1 ∷ []; next = 1 ∷ 2 ∷ 3 ∷ []; free_head = 1 }

abbrev full : Pool
full = record { used_map = 7 ∷ []; next = 1 ∷ 2 ∷ 3 ∷ []; free_head = 3 }

run_alloc : alloc 3 8 100 fresh ≡ (two_left, some 100)
unfolding alloc set_used
run_alloc = refl

exact_two_left : (i : ℕ) → i < 3 → is_used (1 ∷ []) i ≡ not (holds (1 ∷ 2 ∷ []) i)
unfolding is_used
exact_two_left zero h = refl
exact_two_left (suc zero) h = refl
exact_two_left (suc (suc zero)) h = refl
exact_two_left (suc (suc (suc i))) h = absurd (omega arith)

exact_full : (i : ℕ) → i < 3 → is_used (7 ∷ []) i ≡ not (holds [] i)
unfolding is_used
exact_full zero h = refl
exact_full (suc zero) h = refl
exact_full (suc (suc zero)) h = refl
exact_full (suc (suc (suc i))) h = absurd (omega arith)

two_left-IsValid : IsValid 3 two_left (1 ∷ 2 ∷ [])
two_left-IsValid = record {
  positive = omega arith;
  map_size = refl;
  next_size = refl;
  chain = (refl, omega arith, refl, (refl, omega arith, refl, refl));
  exact = exact_two_left;
}

full-IsValid : IsValid 3 full []
full-IsValid = record {
  positive = omega arith;
  map_size = refl;
  next_size = refl;
  chain = refl;
  exact = exact_full;
}

two_left-used : is_used two_left.used_map 0 ≡ true
unfolding is_used
two_left-used = refl

not_allocated : is_allocated 3 8 100 two_left 108 ≡ false
unfolding is_allocated get_index is_used
not_allocated = refl

alloc_lem_example :
    let (p', ptr) = alloc 3 8 100 two_left in
    (ptr ≡ some (100 + 1 * 8))
    × (1 < 3)
    × (is_used two_left.used_map 1 ≡ false)
    × ((j : ℕ) → is_used p'.used_map j ≡ (1 == j || is_used two_left.used_map j))
    × IsValid 3 p' (2 ∷ [])
alloc_lem_example = alloc_lem 3 8 100 two_left 1 (2 ∷ []) two_left-IsValid

free_lem_example :
    let (p', ok) = free 3 8 100 two_left (100 + 0 * 8) in
    (ok ≡ true)
    × ((j : ℕ) → is_used p'.used_map j ≡ (not (0 == j) && is_used two_left.used_map j))
    × IsValid 3 p' (0 ∷ 1 ∷ 2 ∷ [])
free_lem_example =
    free_lem 3 8 100 (omega arith) (omega arith) two_left (1 ∷ 2 ∷ []) 0 two_left-IsValid
      (omega arith) two_left-used

free-refused_test : free 3 8 100 two_left 108 ≡ (two_left, false)
free-refused_test = free-refused 3 8 100 two_left 108 (λ e. omega (arith, e)) not_allocated

clear_lem_test :
    let (p', addresses) = clear 3 8 100 two_left in
    IsValid 3 p' (slots_from 3 0)
    × ((j : ℕ) → j < 3 → holds addresses (100 + j * 8) ≡ is_used two_left.used_map j)
clear_lem_test = clear_lem 3 8 100 (omega arith) (omega arith) two_left (omega arith)

index_names_slot : get_index 3 8 100 116 ≢ 3
unfolding get_index
index_names_slot = λ e. omega (arith, e)

-- Two objects, one of which is destroyed twice.
objects_lem_example :
    let os = create ∷ create ∷ destroy_at 100 ∷ destroy_at 100 ∷ destroy_at 7 ∷ [] in
    let (p, es) = Objects.run 3 8 100 os (reset 3) in
    let (q, last) = Objects.step 3 8 100 clear_all p in
    (made (100 + 1 * 8) es ≡ ended (100 + 1 * 8) es + live (is_used p.used_map 1))
    × (made (100 + 1 * 8) (es ++ last) ≡ ended (100 + 1 * 8) (es ++ last))
objects_lem_example =
    objects_lem 3 8 100 (omega arith) (omega arith)
      (create ∷ create ∷ destroy_at 100 ∷ destroy_at 100 ∷ destroy_at 7 ∷ []) 1 (omega arith)
