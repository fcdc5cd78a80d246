-- ===== src/Observers/Invariant.antt =====
-- What holds between any two critical sections: each entry counts the callbacks that run on it, a
-- callback runs with the observer of its entry, and no observer has two entries.
use c_wrapper.Prelude.{
  ℕ, ◌+◌, ◌-◌, ◌≤◌, ◌<◌, ◌≡◌, refl, arith, Bool, true, List, [], ◌∷◌, ◌&&◌, not, if◌then◌else◌,
  ◌==◌, ltb, length,
}
use c_wrapper.Observers.{Entry, Running, System, init, has, drop_one, runs, end_one}

-- How many callbacks run on the entry.
abbrev pub count : ℕ → List Running → ℕ
count i [] = 0
count i (c ∷ cs) = (if i == c.slot then 1 else 0) + count i cs

-- An entry with `n` callbacks on it, and a `removeAndWait` that waits for it or not.
abbrev pub slot_ok : Bool → Bool → Entry → ℕ → Bool → Bool
slot_ok inside occupied e n waits =
    if occupied
    then inside
      && e.active_calls == n
      && not (e.observer == 0)
      && (if waits then e.waiting_removal && e.is_removed else not e.waiting_removal)
    else n == 0 && not waits

-- No index comes twice.
abbrev pub is_distinct : List ℕ → Bool
is_distinct [] = true
is_distinct (x ∷ xs) = not (has x xs) && is_distinct xs

pub record IsSound (max : ℕ) (s : System) : Type 0 where
  pub slots :
      (i : ℕ)
      → slot_ok
          (ltb i max)
          (s.observers.occupied i)
          (s.observers.entries i)
          (count i s.calls)
          (has i s.waiters)
        ≡ true
  pub distinct : is_distinct s.waiters ≡ true
  pub named : (i o : ℕ) → runs i o s.calls ≡ true → (s.observers.entries i).observer ≡ o
  pub unique :
      (i j : ℕ)
      → s.observers.occupied i ≡ true
      → s.observers.occupied j ≡ true
      → (s.observers.entries i).observer ≡ (s.observers.entries j).observer
      → i ≡ j

pub runs-count : (i o : ℕ) (cs : List Running) → runs i o cs ≡ true → 0 < count i cs
runs-count i o [] h = absurd (cc)
runs-count i o (c ∷ cs) h = ground (arith, runs-count i o cs)

pub count-end_one :
    (i j o : ℕ) (cs : List Running)
    → runs i o cs ≡ true
    → count j (end_one i o cs) ≡ (if i == j then count j cs - 1 else count j cs)
count-end_one i j o [] h = absurd (cc)
count-end_one i j o (c ∷ cs) h = ground (arith, count-end_one i j o cs, runs-count i o cs)

pub runs-end_one :
    (i j o p : ℕ) (cs : List Running) → runs j p (end_one i o cs) ≡ true → runs j p cs ≡ true
runs-end_one i j o p [] h = h
runs-end_one i j o p (c ∷ cs) h = ground (arith, runs-end_one i j o p cs)

pub count-le : (i : ℕ) (cs : List Running) → count i cs ≤ length cs
count-le i [] = omega arith
count-le i (c ∷ cs) = ground (arith, count-le i cs)

pub has-drop_one :
    (i j : ℕ) (ws : List ℕ)
    → is_distinct ws ≡ true
    → has j (drop_one i ws) ≡ (not (i == j) && has j ws)
has-drop_one i j [] h = ground arith
has-drop_one i j (x ∷ xs) h = ground (arith, has-drop_one i j xs)

pub is_distinct-drop_one :
    (i : ℕ) (ws : List ℕ) → is_distinct ws ≡ true → is_distinct (drop_one i ws) ≡ true
is_distinct-drop_one i [] h = refl
is_distinct-drop_one i (x ∷ xs) h = ground (arith, is_distinct-drop_one i xs, has-drop_one i x xs)

pub init-IsSound : (max : ℕ) → IsSound max (record { observers = init; calls = []; waiters = [] })
init-IsSound max = record {
  slots = λ i. refl;
  distinct = refl;
  named = λ i o h. ground arith;
  unique = λ i j h. ground arith;
}
