-- ===== src/Observers/Steps.antt =====
-- Every critical section keeps the invariant.
use c_wrapper.Prelude.{
  ℕ, zero, suc, ◌+◌, ◌^◌, ◌≤◌, ◌<◌, ◌≡◌, ◌≢◌, arith, true, false, ◌&&◌, ◌==◌, length, Bool-cases,
  inl, inr,
}
use c_wrapper.Observers.{
  ObserverList, System, Move, adds, removes, starts_removal, ends_removal, calls_one, returns_from,
  ends_notify, has, drop_one, runs, end_one, store, reset_entry, first, names, is_active,
  find_active, place, add, remove_at, begin_at, may_finish, acquire, release, is_leftover,
  release_removed, with_call, with_waiter, step,
}
use c_wrapper.Observers.Lookup.{first-least}
use c_wrapper.Observers.Cases.{acquire-cases, add-cases, remove-cases, begin-cases}
use c_wrapper.Observers.Invariant.{
  count, IsSound, runs-count, count-end_one, runs-end_one, count-le, has-drop_one,
  is_distinct-drop_one,
}

module _ (max : ℕ) (s : System) (v : IsSound max s) where
  abbrev l : ObserverList
  l = s.observers

  no_call : (i o : ℕ) → count i s.calls ≡ 0 → runs i o s.calls ≡ false
  no_call i o h = ground (arith, runs-count i o s.calls)

  -- An entry without callbacks and waiters may be reset.
  reset_lem :
      (i : ℕ)
      → count i s.calls ≡ 0
      → has i s.waiters ≡ false
      → IsSound max (record s { observers = reset_entry l i })
  unfolding reset_entry
  reset_lem i h w = record {
    slots = λ j. ground (arith, v.slots j);
    distinct = v.distinct;
    named = λ j o r. ground (arith, v.named j o, no_call i o);
    unique = λ j k. ground (arith, v.unique j k);
  }

  end_wait :
      (i : ℕ)
      → count i s.calls ≡ 0
      → IsSound max (record s { observers = reset_entry l i; waiters = drop_one i s.waiters })
  unfolding reset_entry
  end_wait i h = record {
    slots = λ j. ground (arith, v.slots j, has-drop_one i j s.waiters v.distinct);
    distinct = is_distinct-drop_one i s.waiters v.distinct;
    named = λ j o r. ground (arith, v.named j o, no_call i o);
    unique = λ j k. ground (arith, v.unique j k);
  }

  -- The entry may be marked as removed.
  mark_lem :
      (i : ℕ)
      → IsSound max (record s {
        observers = record l {
          entries = store l.entries i (record (l.entries i) { is_removed = true });
        };
      })
  mark_lem i = record {
    slots = λ j. ground (arith, v.slots j);
    distinct = v.distinct;
    named = λ j o r. ground (arith, v.named j o);
    unique = λ j k. ground (arith, v.unique j k);
  }

  remove_at-IsSound :
      (i : ℕ) → l.occupied i ≡ true → IsSound max (record s { observers = remove_at l i })
  unfolding remove_at reset_entry
  remove_at-IsSound i h = record {
    slots = λ j. ground (arith, v.slots j);
    distinct = v.distinct;
    named = λ j o r. ground (arith, v.named j o, v.slots j, no_call i o);
    unique = λ j k. ground (arith, v.unique j k);
  }

  begin_at-IsSound :
      (i : ℕ)
      → is_active l (l.entries i).observer i ≡ true
      → let (l', waits) = begin_at l i in
        IsSound max (record s { observers = l'; waiters = with_waiter waits s.waiters })
  unfolding begin_at reset_entry
  begin_at-IsSound i h = elim (Bool-cases ((l.entries i).active_calls == 0)) [
    | inl e ↦ rw e (record {
      slots = λ j. ground (arith, v.slots j);
      distinct = v.distinct;
      named = λ j o r. ground (arith, v.named j o, v.slots j, no_call i o);
      unique = λ j k. ground (arith, v.unique j k);
    })
    | inr e ↦ rw e (record {
      slots = λ j. ground (arith, v.slots j);
      distinct = ground (arith, v.distinct, v.slots i);
      named = λ j o r. ground (arith, v.named j o, v.slots j);
      unique = λ j k. ground (arith, v.unique j k);
    })
  ]

  acquire-IsSound :
      (i g : ℕ)
      → length s.calls + 1 < 2 ^ 64
      → let (l', target) = acquire l i g in
        IsSound max (record s { observers = l'; calls = with_call i target s.calls })
  unfolding acquire
  acquire-IsSound i g few = elim (acquire-cases l i g) [
    | inl e ↦ rw e v
    | inr (present, kept, old, e) ↦ rw e (record {
      slots = λ j. ground (arith, v.slots j, v.slots i, few, count-le i s.calls);
      distinct = v.distinct;
      named = λ j o r. ground (arith, v.named j o);
      unique = λ j k. ground (arith, v.unique j k);
    })
  ]

  no_call_left :
      (i o p : ℕ)
      → runs i o s.calls ≡ true
      → count i s.calls ≡ 1
      → runs i p (end_one i o s.calls) ≡ false
  no_call_left i o p h one =
      ground (arith, runs-count i p (end_one i o s.calls), count-end_one i i o s.calls)

  release-IsSound :
      (i o : ℕ)
      → runs i o s.calls ≡ true
      → IsSound max (record s { observers = release l i; calls = end_one i o s.calls })
  unfolding release reset_entry
  release-IsSound i o h = record {
    slots = λ j.
        ground (arith, v.slots j, v.slots i, count-end_one i j o s.calls, runs-count i o s.calls);
    distinct = v.distinct;
    named = λ j p r. ground (
      arith,
      v.named j p,
      runs-end_one i j o p s.calls,
      no_call_left i o p h,
      v.slots i,
      runs-count i o s.calls,
    );
    unique = λ j k. ground (arith, v.unique j k);
  }

  -- A free entry may be given to an observer that has none.
  place-IsSound :
      (o i : ℕ)
      → o ≢ 0
      → i < max
      → l.occupied i ≡ false
      → ((j : ℕ) → l.occupied j ≡ true → (l.entries j).observer ≢ o)
      → IsSound max (record s { observers = place max l o i })
  unfolding place
  place-IsSound o i named inside vacant new = record {
    slots = λ j. ground (arith, v.slots j);
    distinct = v.distinct;
    named = λ j p r. ground (arith, v.named j p, v.slots j, no_call i p);
    unique = λ j k. ground (arith, v.unique j k, new j, new k);
  }

  -- Where `add` finds no entry of the observer there is none.
  pub new_name :
      (o : ℕ)
      → max ≤ first (names l o) max 0
      → (j : ℕ) → l.occupied j ≡ true
      → (l.entries j).observer ≢ o
  new_name o h j used e = ground (arith, first-least (names l o) max 0 j, v.slots j)

  add-IsSound : (o : ℕ) → IsSound max (record s { observers = (add max l o).0 })
  add-IsSound o = elim (add-cases max l o) [
    | inl (e, why) ↦ rw e v
    | inr (named, new, inside, vacant, e) ↦
        rw e (place-IsSound o _ named inside vacant (new_name o new))
  ]

-- `releaseRemoved` frees entries one at a time.
release_removed-IsSound :
    (max left i : ℕ) (s : System)
    → IsSound max s
    → IsSound max (record s { observers = release_removed left i s.observers })
unfolding release_removed
release_removed-IsSound max zero i s v = v
release_removed-IsSound max (suc left) i s v = elim (Bool-cases (is_leftover s.observers i)) [
  | inl e ↦ rw e (
      release_removed-IsSound max left (suc i) (record s { observers = reset_entry s.observers i })
        (reset_lem max s v i (ground (arith, v.slots i)) (ground (arith, v.slots i))))
  | inr e ↦ rw e (release_removed-IsSound max left (suc i) s v)
]

-- Every move keeps the invariant, where fewer than 2 ^ 64 - 1 callbacks run.
pub IsSound-step :
    (max : ℕ) (m : Move) (s : System)
    → length s.calls + 1 < 2 ^ 64
    → IsSound max s
    → IsSound max (step max m s)
unfolding step
IsSound-step max (adds o) s few v = add-IsSound max s v o
IsSound-step max (removes o) s few v = elim (remove-cases max s.observers o) [
  | inl e ↦ rw e v
  | inr (found, e) ↦ rw e (remove_at-IsSound max s v (find_active max s.observers o) (ground arith))
]
IsSound-step max (starts_removal o) s few v = elim (begin-cases max s.observers o) [
  | inl (e, w) ↦ rw (e, w) v
  | inr (found, e) ↦ rw e (begin_at-IsSound max s v (find_active max s.observers o) (ground arith))
]
IsSound-step max (ends_removal i) s few v =
    elim (Bool-cases (has i s.waiters && may_finish s.observers i)) [
      | inl e ↦ rw e (end_wait max s v i (ground (arith, v.slots i)))
      | inr e ↦ rw e v
    ]
IsSound-step max (calls_one i g) s few v = acquire-IsSound max s v i g few
IsSound-step max (returns_from i o) s few v = elim (Bool-cases (runs i o s.calls)) [
  | inl e ↦ rw e (release-IsSound max s v i o e)
  | inr e ↦ rw e v
]
IsSound-step max ends_notify s few v = release_removed-IsSound max max 0 s v
