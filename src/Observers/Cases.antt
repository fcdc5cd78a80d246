-- ===== src/Observers/Cases.antt =====
-- What an operation may do: nothing, or one change at one entry.
use c_wrapper.Prelude.{
  ℕ, ◌+◌, ◌%◌, ◌^◌, ◌≤◌, ◌<◌, ◌≡◌, ◌≢◌, arith, true, false, none, some, not, ◌⊎◌,
}
use c_wrapper.Observers.{
  ObserverList, store, reset_entry, first, names, is_active, find_active, place, add, remove_at,
  remove, begin_at, begin_wait, acquire, removed,
}
use c_wrapper.Observers.Lookup.{first-le, first-found}

-- `acquireForNotify` takes an entry that is occupied, kept and old enough, and nothing else.
pub acquire-cases :
    (l : ObserverList) (i g : ℕ)
    → (acquire l i g ≡ (l, none))
      ⊎ (l.occupied i ≡ true)
        × ((l.entries i).is_removed ≡ false)
        × ((l.entries i).generation ≤ g)
        × (acquire l i g ≡ (
          record l {
            entries =
                store l.entries i (record (l.entries i) {
                  active_calls = ((l.entries i).active_calls + 1) % 2 ^ 64;
                });
          },
          some (l.entries i).observer,
        ))
unfolding acquire
acquire-cases l i g = ground arith

-- `add` places an observer that is not listed at the first free entry, or changes nothing.
pub add-cases :
    (max : ℕ) (l : ObserverList) (o : ℕ)
    → (add max l o ≡ (l, false))
        × ((o ≡ 0)
            ⊎ (first (names l o) max 0 < max)
            ⊎ (first (λ i. not (l.occupied i)) max 0 ≡ max))
      ⊎ (o ≢ 0)
        × (max ≤ first (names l o) max 0)
        × (first (λ i. not (l.occupied i)) max 0 < max)
        × (l.occupied (first (λ i. not (l.occupied i)) max 0) ≡ false)
        × (add max l o ≡ (place max l o (first (λ i. not (l.occupied i)) max 0), true))
unfolding add
add-cases max l o =
    ground
      (arith, first-le (λ i. not (l.occupied i)) max 0, first-found (λ i. not (l.occupied i)) max 0)

module _ (max : ℕ) (l : ObserverList) (o : ℕ) where
  found : find_active max l o < max → is_active l o (find_active max l o) ≡ true
  unfolding find_active
  found h = first-found (is_active l o) max 0 (omega arith)

  bounded : find_active max l o ≤ max
  unfolding find_active
  bounded = omega (arith, first-le (is_active l o) max 0)

  -- `remove` marks or frees the active entry of the observer, or changes nothing.
  pub remove-cases :
      ((remove max l o).0 ≡ l)
      ⊎ (is_active l o (find_active max l o) ≡ true)
        × (remove max l o ≡ (remove_at l (find_active max l o), removed))
  unfolding remove
  remove-cases = ground (arith, found, bounded)

  -- `removeAndWait` up to its wait does the same with its own marks.
  pub begin-cases :
      ((begin_wait max l o).0 ≡ l) × ((begin_wait max l o).1 ≡ none)
      ⊎ (is_active l o (find_active max l o) ≡ true)
        × (begin_wait max l o
            ≡ ((begin_at l (find_active max l o)).0, (begin_at l (find_active max l o)).1, removed))
  unfolding begin_wait
  begin-cases = ground (arith, found, bounded)

  -- Where it does not wait, the entry had no callback and is free again.
  pub begin-returns :
      (begin_wait max l o).1 ≡ none
      → (begin_wait max l o).2 ≡ removed
      → (is_active l o (find_active max l o) ≡ true)
        × ((begin_wait max l o).0
            ≡ reset_entry
                (record l {
                  entries =
                      store l.entries
                        (find_active max l o)
                        (record (l.entries (find_active max l o)) { is_removed = true });
                })
                (find_active max l o))
  unfolding begin_wait begin_at
  begin-returns returns found_it = ground (arith, found, bounded)
