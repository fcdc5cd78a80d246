-- ===== src/TimerList/Due.antt =====
-- Which timer the loop takes, and how long it waits.
use c_wrapper.Prelude.{
  ℕ, ◌-◌, ◌≤◌, ◌<◌, ◌≡◌, refl, arith, Bool, true, none, some, List, [], ◌∷◌, if◌then◌else◌,
}
use c_wrapper.TimerList.{contains, take_expired, next_timeout, wait_time_ms}
use c_wrapper.TimerList.Order.{IsSorted, From}

contains-From :
    (expiry : ℕ → ℕ) (e u : ℕ) (xs : List ℕ)
    → From expiry e xs
    → contains u xs ≡ true
    → e ≤ expiry u
unfolding contains
contains-From expiry e u [] f h = cc
contains-From expiry e u (x ∷ xs) f h = ground (arith, contains-From expiry e u xs f.1)

module _ (expiry : ℕ → ℕ) (now : ℕ) where
  -- The front timer expires first.
  front_first :
      (t u : ℕ) (rest : List ℕ)
      → IsSorted expiry (t ∷ rest)
      → contains u (t ∷ rest) ≡ true
      → expiry t ≤ expiry u
  front_first t u rest s h = contains-From expiry (expiry t) u (t ∷ rest) (omega arith, s.0) h

  -- The loop takes a timer only if it is due, may execute and no other expires before it; the rest of
  -- the list stays.
  pub take_expired_lem :
      (can_execute : ℕ → Bool) (t : ℕ) (ts rest : List ℕ)
      → IsSorted expiry ts
      → take_expired expiry now can_execute ts ≡ (rest, some t)
      → (ts ≡ t ∷ rest)
        × (expiry t ≤ now)
        × (can_execute t ≡ true)
        × ((u : ℕ) → contains u ts ≡ true → expiry t ≤ expiry u)
  unfolding take_expired
  take_expired_lem can_execute t [] rest s h = cc
  take_expired_lem can_execute t (x ∷ xs) rest s h =
      let same : x ≡ t = ground arith in
      (
        ground arith,
        ground arith,
        ground arith,
        λ u there. rw (← same) (front_first x u xs s there),
      )

  -- If a timer of the list is due, the front one comes off the list, and is executed if it may be.
  pub take_expired_due :
      (can_execute : ℕ → Bool) (u : ℕ) (ts : List ℕ)
      → IsSorted expiry ts
      → contains u ts ≡ true
      → expiry u ≤ now
      → (t : ℕ) × (rest : List ℕ) × (ts ≡ t ∷ rest)
        × (take_expired expiry now can_execute ts ≡ (rest, if can_execute t then some t else none))
  unfolding take_expired contains
  take_expired_due can_execute u [] s h due = cc
  take_expired_due can_execute u (x ∷ xs) s h due =
      (x, xs, refl, ground (arith, front_first x u xs s h))

  -- The wait ends by the time any listed timer expires, at once if one is due, and lasts ten seconds
  -- at most.
  pub next_timeout_lem :
      (ts : List ℕ)
      → IsSorted expiry ts
      → (next_timeout expiry now ts ≤ wait_time_ms)
        × ((u : ℕ) → contains u ts ≡ true → next_timeout expiry now ts ≤ expiry u - now)
  unfolding next_timeout
  next_timeout_lem [] s = (omega arith, λ u h. absurd (not-contains u h))
    where
      not-contains : (u : ℕ) → ¬ (contains u [] ≡ true)
      not-contains u h = unfold contains in cc h
  next_timeout_lem (x ∷ xs) s = (ground arith, λ u h. ground (arith, front_first x u xs s h))

  -- The loop waits at all only if no listed timer is due.
  pub next_timeout-pos :
      (ts : List ℕ) (u : ℕ)
      → IsSorted expiry ts
      → 0 < next_timeout expiry now ts
      → contains u ts ≡ true
      → now < expiry u
  next_timeout-pos ts u s pos h = omega (arith, (next_timeout_lem ts s).1 u h)
