-- ===== src/Observers/State.antt =====
-- common/ObserverList.h: the members of a `RawObserverList`, and the searches in them.
use c_wrapper.Prelude.{ℕ, zero, suc, Bool, false, ◌&&◌, not, if◌then◌else◌, ◌==◌}

-- `RemoveResult`.
pub data RemoveResult : Type 0 where
  removed not_found null_observer : RemoveResult

-- `Entry`.
pub record Entry : Type 0 where
  pub observer : ℕ
  pub active_calls : ℕ
  pub generation : ℕ
  pub is_removed : Bool
  pub waiting_removal : Bool

abbrev pub empty_entry : Entry
empty_entry = record {
  observer = 0;
  active_calls = 0;
  generation = 0;
  is_removed = false;
  waiting_removal = false;
}

-- `mEntries`, `mOccupiedBits`, `mGeneration`; the arrays are functions of the index.
pub record ObserverList : Type 0 where
  pub entries : ℕ → Entry
  pub occupied : ℕ → Bool
  pub generation : ℕ

abbrev pub init : ObserverList
init = record { entries = λ i. empty_entry; occupied = λ i. false; generation = 0 }

-- `a[i] = x`.
abbrev pub store : {A : Type 0} → (ℕ → A) → ℕ → A → ℕ → A
store a i x j = if i == j then x else a j

-- A loop `for (i = 0; i < MaxObservers; ++i)` that ends at the first index that meets `test`; `left`
-- indices remain and the last is `max - 1`.
unfoldable pub first : (ℕ → Bool) → ℕ → ℕ → ℕ
first test zero i = i
first test (suc left) i = let rest = first test left (suc i) in if test i then i else rest

-- The tests of the loops of `add`, `findActiveEntryIndexLocked` and `contains`.
abbrev pub names : ObserverList → ℕ → ℕ → Bool
names s observer i = s.occupied i && (s.entries i).observer == observer

abbrev pub is_active : ObserverList → ℕ → ℕ → Bool
is_active s observer i = names s observer i && not (s.entries i).is_removed
