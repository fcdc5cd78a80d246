-- ===== src/Observers/Listing.antt =====
-- What add, remove and contains say of each other.
use c_wrapper.Prelude.{
  ℕ, ◌+◌, ◌%◌, ◌^◌, ◌≤◌, ◌<◌, ◌≡◌, ◌≢◌, refl, arith, Bool, true, false, none, some, not, ap, inl,
  inr, ◌⊎◌,
}
use c_wrapper.Observers.{
  ObserverList, System, removes, runs, reset_entry, first, names, is_active, find_active, contains,
  place, add, remove_at, remove, begin_wait, acquire, step, removed, not_found,
}
use c_wrapper.Observers.Lookup.{first-le, first-found, first-least, first-none}
use c_wrapper.Observers.Cases.{add-cases}
use c_wrapper.Observers.Removal.{IsAbsent, IsAbsent-intro}
use c_wrapper.Observers.Steps.{new_name}
use c_wrapper.Observers.Invariant.{IsSound}

find_active-lem :
    (max o i : ℕ) (s : System)
    → IsSound max s
    → is_active s.observers o i ≡ true
    → find_active max s.observers o ≡ i
unfolding find_active
find_active-lem max o i s v active = ground (
  arith,
  v.slots i,
  first-le (is_active s.observers o) max 0,
  first-found (is_active s.observers o) max 0,
  first-least (is_active s.observers o) max 0 i,
  v.unique (first (is_active s.observers o) max 0) i,
)

begin-none :
    (max : ℕ) (l : ObserverList) (o : ℕ)
    → o ≢ 0
    → ((j : ℕ) → is_active l o j ≡ false)
    → begin_wait max l o ≡ (l, none, not_found)
unfolding begin_wait find_active
begin-none max l o named h = ground (arith, first-none (is_active l o) max 0 h)

module _ (max o i : ℕ) (s : System) (v : IsSound max s)
    (active : is_active s.observers o i ≡ true) where
  is_named : o ≢ 0
  is_named = ground (arith, v.slots i)

  removes-at : remove max s.observers o ≡ (remove_at s.observers i, removed)
  unfolding remove
  removes-at = ground (arith, find_active-lem max o i s v active, v.slots i)

  left_inactive : (j : ℕ) → is_active (remove_at s.observers i) o j ≡ false
  unfolding remove_at reset_entry
  left_inactive j = ground (arith, v.unique i j, v.slots i)

  -- In any state of the invariant, remove of an observer that is listed answers Removed, and it is
  -- listed no more.
  pub remove_lem :
      ((remove max s.observers o).1 ≡ removed)
      × (contains max (remove max s.observers o).0 o ≡ false)
  unfolding contains find_active
  remove_lem =
      rw removes-at (
        refl,
        ground (arith, first-none (is_active (remove_at s.observers i) o) max 0 left_inactive),
      )

-- In any state of the invariant, where a callback of a listed observer still runs when remove takes it
-- off, a removeAndWait that follows does not wait: it answers NotFound while the callback runs.
pub wait-skipped :
    (max o i : ℕ) (s : System)
    → IsSound max s
    → is_active s.observers o i ≡ true
    → runs i o s.calls ≡ true
    → let s' = step max (removes o) s in
      (begin_wait max s'.observers o ≡ (s'.observers, none, not_found)) × (runs i o s'.calls ≡ true)
unfolding step
wait-skipped max o i s v active called = rw (removes-at max o i s v active) (
  begin-none max (remove_at s.observers i) o (is_named max o i s v active)
      (left_inactive max o i s v active),
  called,
)

first-bound : (test : ℕ → Bool) (max i : ℕ) → i < max → test i ≡ true → first test max 0 < max
first-bound test max i h e = ground (arith, first-least test max 0 i)

-- Why `add` may refuse: the null pointer, an entry of the observer, or no free entry.
pub MayRefuse : ℕ → ObserverList → ℕ → Type 0
MayRefuse max l o =
    (o ≡ 0) ⊎ ((j : ℕ) × (names l o j ≡ true)) ⊎ ((j : ℕ) → j < max → l.occupied j ≡ true)

refusal :
    (max o : ℕ) (l : ObserverList)
    → ((o ≡ 0) ⊎ (first (names l o) max 0 < max) ⊎ (first (λ i. not (l.occupied i)) max 0 ≡ max))
    → MayRefuse max l o
unfolding MayRefuse
refusal max o l (inl e) = inl e
refusal max o l (inr (inl h)) =
    inr (inl (first (names l o) max 0, first-found (names l o) max 0 (omega arith)))
refusal max o l (inr (inr e)) =
    inr (inr (λ j h. ground (arith, first-least (λ i. not (l.occupied i)) max 0 j)))

unlisted :
    (o : ℕ) (l : ObserverList)
    → ((j : ℕ) → l.occupied j ≡ true → (l.entries j).observer ≢ o)
    → IsAbsent l o
unlisted o l new = IsAbsent-intro o l (λ j. ground (arith, new j))

listed :
    (max o i : ℕ) (l : ObserverList) → o ≢ 0 → i < max → contains max (place max l o i) o ≡ true
unfolding contains find_active place
listed max o i l named inside =
    ground (arith, first-bound (is_active (place max l o i) o) max i inside (ground arith))

generation-place :
    (max o i : ℕ) (l : ObserverList) → (place max l o i).generation ≡ (l.generation + 1) % 2 ^ 64
unfolding place
generation-place max o i l = refl

-- In any state of the invariant, add either lists the observer, which had no entry, and counts the
-- generation up, or refuses for one of its three reasons and changes nothing.
pub add_lem :
    (max o : ℕ) (s : System)
    → IsSound max s
    → let (l', done) = add max s.observers o in
      (done ≡ true)
        × IsAbsent s.observers o
        × (contains max l' o ≡ true)
        × (l'.generation ≡ (s.observers.generation + 1) % 2 ^ 64)
      ⊎ (done ≡ false) × (l' ≡ s.observers) × MayRefuse max s.observers o
add_lem max o s v = elim (add-cases max s.observers o) [
  | inl (e, why) ↦ rw e (inr (refl, refl, refusal max o s.observers why))
  | inr (named, new, inside, vacant, e) ↦ rw e (
      inl (
        refl,
        unlisted o s.observers (new_name max s v o new),
        listed max o _ s.observers named inside,
        generation-place max o _ s.observers,
      ))
]

-- In any state of the invariant, a notify whose snapshot is older than a successful add of an observer
-- does not call it, where the generation does not go round at that add.
pub acquire_new :
    (max o j g : ℕ) (s : System)
    → IsSound max s
    → (add max s.observers o).1 ≡ true
    → s.observers.generation + 1 < 2 ^ 64
    → g ≤ s.observers.generation
    → (acquire (add max s.observers o).0 j g).1 ≢ some o
unfolding acquire place
acquire_new max o j g s v done small old = elim (add-cases max s.observers o) [
  | inl (e, why) ↦ absurd (ground (arith, ap (λ r. r.1) e))
  | inr (named, new, inside, vacant, e) ↦ rw e (ground (arith, new_name max s v o new j))
]
