-- ===== src/Observers.antt =====
-- common/ObserverList.h: `RawObserverList<T, MaxObservers>`. An observer is its address, 0 the null
-- pointer. Each critical section of `mLock` is one function; `Step` puts together those of the threads
-- that notify and of the threads that change the list, in any order.
pub mod State
pub mod Lookup
pub mod Invariant
pub mod Cases
pub mod Steps
pub mod Removal
pub mod Safety
pub mod Listing
mod Tests
unfoldable pub use State.*
use c_wrapper.Prelude.{
  ℕ, zero, suc, ◌+◌, ◌-◌, ◌%◌, ◌^◌, ◌≤◌, ◌<◌, ◌≡◌, ◌≢◌, Bool, true, false, Option, none, some, List,
  [], ◌∷◌, ◌&&◌, ◌||◌, not, if◌then◌else◌, ltb, ◌==◌,
}

-- `resetEntryLocked`.
pub reset_entry : ObserverList → ℕ → ObserverList
reset_entry s i = record s {
  entries = store s.entries i empty_entry;
  occupied = store s.occupied i false;
}

-- `remove`, the entry found.
pub remove_at : ObserverList → ℕ → ObserverList
remove_at s i =
    let e = s.entries i in
    let s' = record s { entries = store s.entries i (record e { is_removed = true }) } in
    if e.active_calls == 0 && not e.waiting_removal then reset_entry s' i else s'

-- `removeAndWait` up to its wait, the entry found; with the index that it waits for.
pub begin_at : ObserverList → ℕ → ObserverList × Option ℕ
begin_at s i =
    let e = s.entries i in
    if e.active_calls == 0
    then (
      reset_entry (record s { entries = store s.entries i (record e { is_removed = true }) }) i,
      none,
    )
    else (
      record s {
        entries = store s.entries i (record e { is_removed = true; waiting_removal = true });
      },
      some i,
    )

module _ (max : ℕ) where
  -- `findActiveEntryIndexLocked`.
  pub find_active : ObserverList → ℕ → ℕ
  find_active s observer = first (is_active s observer) max 0

  -- `contains`.
  pub contains : ObserverList → ℕ → Bool
  contains s observer = not (observer == 0) && ltb (find_active s observer) max

  -- The end of `add`, at the free index.
  unfoldable pub place : ObserverList → ℕ → ℕ → ObserverList
  place s observer i =
      let generation = (s.generation + 1) % 2 ^ 64 in
      record {
        entries = store s.entries i (record {
          observer = observer;
          active_calls = 0;
          generation = generation;
          is_removed = false;
          waiting_removal = false;
        });
        occupied = store s.occupied i true;
        generation = generation;
      }

  -- `add`: the loop returns at an entry of the observer, and finds the first free index.
  unfoldable pub add : ObserverList → ℕ → ObserverList × Bool
  unfolding place
  add s observer =
      if observer == 0
      then (s, false)
      else if ltb (first (names s observer) max 0) max
      then (s, false)
      else let free_index = first (λ i. not (s.occupied i)) max 0 in
        if free_index == max then (s, false) else (place s observer free_index, true)

  -- `remove`.
  pub remove : ObserverList → ℕ → ObserverList × RemoveResult
  remove s observer =
      let i = find_active s observer in
      if observer == 0
      then (s, null_observer)
      else if i == max
      then (s, not_found)
      else (remove_at s i, removed)

  -- `removeAndWait` up to its wait.
  pub begin_wait : ObserverList → ℕ → ObserverList × Option ℕ × RemoveResult
  begin_wait s observer =
      let i = find_active s observer in
      if observer == 0
      then (s, none, null_observer)
      else if i == max
      then (s, none, not_found)
      else ((begin_at s i).0, (begin_at s i).1, removed)

-- The predicate of the wait in `removeAndWait`.
abbrev pub may_finish : ObserverList → ℕ → Bool
may_finish s i = (s.entries i).active_calls == 0

-- `acquireForNotify`.
pub acquire : ObserverList → ℕ → ℕ → ObserverList × Option ℕ
acquire s i start_generation =
    let e = s.entries i in
    if not (s.occupied i)
    then (s, none)
    else if e.is_removed
    then (s, none)
    else if ltb start_generation e.generation
    then (s, none)
    else (
      record s {
        entries = store s.entries i (record e { active_calls = (e.active_calls + 1) % 2 ^ 64 });
      },
      some e.observer,
    )

-- `--entry.activeCalls` under its guard.
abbrev pub one_less : ℕ → ℕ
one_less n = if ltb 0 n then n - 1 else n

-- `releaseAfterNotify`; the broadcast wakes the waiter, which looks at its predicate whenever it runs.
pub release : ObserverList → ℕ → ObserverList
release s i =
    let e = s.entries i in
    let left = one_less e.active_calls in
    let s' = record s { entries = store s.entries i (record e { active_calls = left }) } in
    if not (s.occupied i)
    then s
    else if left == 0 && e.is_removed && not e.waiting_removal
    then reset_entry s' i
    else s'

-- The test of the loop in `releaseRemoved`.
abbrev pub is_leftover : ObserverList → ℕ → Bool
is_leftover s i =
    s.occupied i
    && (s.entries i).is_removed
    && not (s.entries i).waiting_removal
    && (s.entries i).active_calls == 0

-- `releaseRemoved`.
pub release_removed : ℕ → ℕ → ObserverList → ObserverList
release_removed zero i s = s
release_removed (suc left) i s =
    release_removed left (suc i) (if is_leftover s i then reset_entry s i else s)

-- A callback that runs: the index that the notifying thread holds, and the observer.
pub record Running : Type 0 where
  pub slot : ℕ
  pub target : ℕ

-- The list, the callbacks that run, and the indices that a `removeAndWait` waits for.
pub record System : Type 0 where
  pub observers : ObserverList
  pub calls : List Running
  pub waiters : List ℕ

abbrev pub has : ℕ → List ℕ → Bool
has i [] = false
has i (x ∷ xs) = i == x || has i xs

abbrev pub drop_one : ℕ → List ℕ → List ℕ
drop_one i [] = []
drop_one i (x ∷ xs) = if i == x then xs else x ∷ drop_one i xs

abbrev pub is_call : ℕ → ℕ → Running → Bool
is_call i o c = i == c.slot && o == c.target

-- A callback of the observer runs on the entry.
abbrev pub runs : ℕ → ℕ → List Running → Bool
runs i o [] = false
runs i o (c ∷ cs) = is_call i o c || runs i o cs

abbrev pub end_one : ℕ → ℕ → List Running → List Running
end_one i o [] = []
end_one i o (c ∷ cs) = if is_call i o c then cs else c ∷ end_one i o cs

-- What a thread does in one critical section.
pub data Move : Type 0 where
  adds : (observer : ℕ) → Move
  removes : (observer : ℕ) → Move
  -- `removeAndWait`, up to the wait and from its end
  starts_removal : (observer : ℕ) → Move
  ends_removal : (index : ℕ) → Move
  -- `notify`: an index of its loop, with the generation of its snapshot; the end of the callback; the
  -- end of the loop
  calls_one : (index : ℕ) → (start_generation : ℕ) → Move
  returns_from : (index : ℕ) → (observer : ℕ) → Move
  ends_notify : Move

abbrev pub with_call : ℕ → Option ℕ → List Running → List Running
with_call i none cs = cs
with_call i (some o) cs = record { slot = i; target = o } ∷ cs

abbrev pub with_waiter : Option ℕ → List ℕ → List ℕ
with_waiter none ws = ws
with_waiter (some i) ws = i ∷ ws

-- A move that its thread cannot make now changes nothing.
unfoldable pub step : ℕ → Move → System → System
step max (adds o) s = record s { observers = (add max s.observers o).0 }
step max (removes o) s = record s { observers = (remove max s.observers o).0 }
step max (starts_removal o) s =
    let (l, waits, result) = begin_wait max s.observers o in
    record s { observers = l; waiters = with_waiter waits s.waiters }
step max (ends_removal i) s =
    if has i s.waiters && may_finish s.observers i
    then record s { observers = reset_entry s.observers i; waiters = drop_one i s.waiters }
    else s
step max (calls_one i g) s =
    let (l, target) = acquire s.observers i g in
    record s { observers = l; calls = with_call i target s.calls }
step max (returns_from i o) s =
    if runs i o s.calls
    then record s { observers = release s.observers i; calls = end_one i o s.calls }
    else s
step max ends_notify s = record s { observers = release_removed max 0 s.observers }
