-- ===== src/Observers/Removal.antt =====
-- What adding and removing promise to the owner of an observer.
use c_wrapper.Prelude.{
  ℕ, zero, suc, ◌≡◌, ◌≢◌, arith, Bool, true, false, none, ◌&&◌, ◌==◌, Bool-cases, inl, inr,
}
use c_wrapper.Observers.{
  ObserverList, System, Move, adds, removes, starts_removal, ends_removal, calls_one, returns_from,
  ends_notify, has, runs, reset_entry, names, find_active, place, remove_at, begin_at, begin_wait,
  may_finish, acquire, release, is_leftover, release_removed, step, removed,
}
use c_wrapper.Observers.Cases.{add-cases, remove-cases, begin-cases, begin-returns}
use c_wrapper.Observers.Invariant.{IsSound, runs-count}

-- No entry is the observer's.
pub IsAbsent : ObserverList → ℕ → Type 0
IsAbsent l o = (j : ℕ) → names l o j ≡ false

-- No callback of the observer runs.
pub IsQuiet : System → ℕ → Type 0
IsQuiet s o = (j : ℕ) → runs j o s.calls ≡ false

pub IsAbsent-intro : (o : ℕ) (l : ObserverList) → ((j : ℕ) → names l o j ≡ false) → IsAbsent l o
unfolding IsAbsent
IsAbsent-intro o l h = h

-- A callback that runs has an entry of its observer.
pub absent-IsQuiet : (max o : ℕ) (s : System) → IsSound max s → IsAbsent s.observers o → IsQuiet s o
unfolding IsAbsent IsQuiet
absent-IsQuiet max o s v absent j =
    ground (arith, v.slots j, v.named j o, runs-count j o s.calls, absent j)

pub IsAbsent-reset :
    (max i : ℕ) (s : System)
    → IsSound max s
    → s.observers.occupied i ≡ true
    → IsAbsent (reset_entry s.observers i) (s.observers.entries i).observer
unfolding IsAbsent reset_entry
IsAbsent-reset max i s v used j = ground (arith, v.unique i j)

-- The observer of a removal that need not wait is no longer listed.
pub IsAbsent-begin_wait :
    (max o : ℕ) (s : System)
    → IsSound max s
    → (begin_wait max s.observers o).1 ≡ none
    → (begin_wait max s.observers o).2 ≡ removed
    → IsAbsent (begin_wait max s.observers o).0 o
unfolding IsAbsent reset_entry
IsAbsent-begin_wait max o s v returns found =
    let (active, e) = begin-returns max s.observers o returns found in
    λ j. rw e (ground (arith, v.unique (find_active max s.observers o) j))

IsAbsent-reset_other : (i o : ℕ) (l : ObserverList) → IsAbsent l o → IsAbsent (reset_entry l i) o
unfolding IsAbsent reset_entry
IsAbsent-reset_other i o l absent j = ground (arith, absent j)

-- Whether a move adds the observer.
abbrev pub adds_it : ℕ → Move → Bool
adds_it o (adds p) = o == p
adds_it o _ = false

module _ (o : ℕ) (l : ObserverList) (absent : IsAbsent l o) where
  IsAbsent-remove_at : (i : ℕ) → IsAbsent (remove_at l i) o
  unfolding IsAbsent remove_at reset_entry
  IsAbsent-remove_at i j = ground (arith, absent j)

  IsAbsent-begin_at : (i : ℕ) → IsAbsent (begin_at l i).0 o
  unfolding IsAbsent begin_at reset_entry
  IsAbsent-begin_at i j = ground (arith, absent j)

  IsAbsent-acquire : (i g : ℕ) → IsAbsent (acquire l i g).0 o
  unfolding IsAbsent acquire
  IsAbsent-acquire i g j = ground (arith, absent j)

  IsAbsent-release : (i : ℕ) → IsAbsent (release l i) o
  unfolding IsAbsent release reset_entry
  IsAbsent-release i j = ground (arith, absent j)

  IsAbsent-place : (max p i : ℕ) → o ≢ p → IsAbsent (place max l p i) o
  unfolding IsAbsent place
  IsAbsent-place max p i ne j = ground (arith, absent j)

IsAbsent-release_removed :
    (left i o : ℕ) (l : ObserverList) → IsAbsent l o → IsAbsent (release_removed left i l) o
unfolding release_removed
IsAbsent-release_removed zero i o l absent = absent
IsAbsent-release_removed (suc left) i o l absent = elim (Bool-cases (is_leftover l i)) [
  | inl e ↦ rw e (
      IsAbsent-release_removed left (suc i) o (reset_entry l i) (IsAbsent-reset_other i o l absent))
  | inr e ↦ rw e (IsAbsent-release_removed left (suc i) o l absent)
]

-- An observer that is not listed stays so until it is added.
pub IsAbsent-step :
    (max o : ℕ) (m : Move) (s : System)
    → adds_it o m ≡ false
    → IsAbsent s.observers o
    → IsAbsent (step max m s).observers o
unfolding step
IsAbsent-step max o (adds p) s other absent = elim (add-cases max s.observers p) [
  | inl (e, why) ↦ rw e absent
  | inr (named, new, inside, vacant, e) ↦
      rw e (IsAbsent-place o s.observers absent max p _ (λ q. ground (arith, q)))
]
IsAbsent-step max o (removes p) s other absent = elim (remove-cases max s.observers p) [
  | inl e ↦ rw e absent
  | inr (found, e) ↦ rw e (IsAbsent-remove_at o s.observers absent (find_active max s.observers p))
]
IsAbsent-step max o (starts_removal p) s other absent = elim (begin-cases max s.observers p) [
  | inl (e, w) ↦ rw e absent
  | inr (found, e) ↦ rw e (IsAbsent-begin_at o s.observers absent (find_active max s.observers p))
]
IsAbsent-step max o (ends_removal i) s other absent =
    elim (Bool-cases (has i s.waiters && may_finish s.observers i)) [
      | inl e ↦ rw e (IsAbsent-reset_other i o s.observers absent)
      | inr e ↦ rw e absent
    ]
IsAbsent-step max o (calls_one i g) s other absent = IsAbsent-acquire o s.observers absent i g
IsAbsent-step max o (returns_from i p) s other absent = elim (Bool-cases (runs i p s.calls)) [
  | inl e ↦ rw e (IsAbsent-release o s.observers absent i)
  | inr e ↦ rw e absent
]
IsAbsent-step max o ends_notify s other absent = IsAbsent-release_removed max 0 o s.observers absent
