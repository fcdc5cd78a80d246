-- ===== src/Observers/Safety.antt =====
-- Runs of the moves, and what holds along them.
use c_wrapper.Prelude.{
  ℕ, ◌+◌, ◌^◌, ◌≤◌, ◌<◌, ◌≡◌, arith, Bool, true, none, List, [], ◌∷◌, ◌&&◌, not, length, inl, inr,
}
use c_wrapper.Observers.{
  Running, System, Move, adds, removes, starts_removal, ends_removal, calls_one, returns_from,
  ends_notify, has, end_one, begin_wait, may_finish, step, removed,
}
use c_wrapper.Observers.Cases.{acquire-cases}
use c_wrapper.Observers.Invariant.{IsSound}
use c_wrapper.Observers.Removal.{
  IsAbsent, IsQuiet, absent-IsQuiet, IsAbsent-reset, IsAbsent-begin_wait, IsAbsent-step, adds_it,
}
use c_wrapper.Observers.Steps.{IsSound-step}

-- The moves of a run, in order.
pub run : ℕ → List Move → System → System
run max [] s = s
run max (m ∷ ms) s = run max ms (step max m s)

abbrev pub never_adds : ℕ → List Move → Bool
never_adds o [] = true
never_adds o (m ∷ ms) = not (adds_it o m) && never_adds o ms

length-end_one : (i o : ℕ) (cs : List Running) → length (end_one i o cs) ≤ length cs
length-end_one i o [] = omega arith
length-end_one i o (c ∷ cs) = ground (arith, length-end_one i o cs)

one_more : (max : ℕ) (m : Move) (s : System) → length (step max m s).calls ≤ length s.calls + 1
unfolding step
one_more max (calls_one i g) s = elim (acquire-cases s.observers i g) [
  | inl e ↦ rw e (omega arith)
  | inr (used, kept, old, e) ↦ rw e (omega arith)
]
one_more max (returns_from i o) s = ground (arith, length-end_one i o s.calls)
one_more max (ends_removal i) s = ground arith
one_more max (adds o) s = omega arith
one_more max (removes o) s = omega arith
one_more max (starts_removal o) s = omega arith
one_more max ends_notify s = omega arith

-- An observer that is not listed is neither listed nor called by any run that does not add it.
pub run-IsQuiet :
    (max o : ℕ) (ms : List Move) (s : System)
    → length s.calls + length ms < 2 ^ 64
    → IsSound max s
    → IsAbsent s.observers o
    → never_adds o ms ≡ true
    → IsQuiet (run max ms s) o
unfolding run
run-IsQuiet max o [] s few v absent never = absent-IsQuiet max o s v absent
run-IsQuiet max o (m ∷ ms) s few v absent never =
    run-IsQuiet max o ms (step max m s) (omega (arith, one_more max m s))
      (IsSound-step max m s (omega arith) v) (IsAbsent-step max o m s (ground arith) absent)
      (ground arith)

-- From any state of the invariant, with fewer than 2 ^ 64 callbacks and moves: when removeAndWait has
-- waited and returns, no callback of the observer runs, and none runs later unless it is added again.
pub ends_removal_lem :
    (max i : ℕ) (ms : List Move) (s : System)
    → length s.calls + length ms + 1 < 2 ^ 64
    → IsSound max s
    → has i s.waiters ≡ true
    → may_finish s.observers i ≡ true
    → never_adds (s.observers.entries i).observer ms ≡ true
    → IsQuiet (run max ms (step max (ends_removal i) s)) (s.observers.entries i).observer
unfolding step
ends_removal_lem max i ms s few v waits done never =
    run-IsQuiet max (s.observers.entries i).observer ms (step max (ends_removal i) s) (ground arith)
      (IsSound-step max (ends_removal i) s (omega arith) v)
      (rw (waits, done) (IsAbsent-reset max i s v (ground (arith, v.slots i)))) never

-- From any state of the invariant, with fewer than 2 ^ 64 callbacks and moves: when removeAndWait
-- returns Removed without waiting, no callback of the observer runs, and none runs later unless it is
-- added again.
pub starts_removal_lem :
    (max o : ℕ) (ms : List Move) (s : System)
    → length s.calls + length ms + 1 < 2 ^ 64
    → IsSound max s
    → (begin_wait max s.observers o).1 ≡ none
    → (begin_wait max s.observers o).2 ≡ removed
    → never_adds o ms ≡ true
    → IsQuiet (run max ms (step max (starts_removal o) s)) o
unfolding step
starts_removal_lem max o ms s few v returns found never =
    run-IsQuiet max o ms (step max (starts_removal o) s) (omega arith)
      (IsSound-step max (starts_removal o) s (omega arith) v)
      (IsAbsent-begin_wait max o s v returns found) never
