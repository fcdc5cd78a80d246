-- ===== src/TimerList/Order.antt =====
-- The list stays sorted by expiry and free of duplicates, and holds what it should.
use c_wrapper.Prelude.{
  ℕ, ◌+◌, ◌≤◌, ◌≡◌, refl, arith, true, false, some, List, [], ◌∷◌, ◌++◌, ◌||◌, ◌&&◌, not, ◌==◌,
  ==_ne, ==_refl, ℕ_discrete, Bool-cases, inl, inr,
}
use c_wrapper.TimerList.{contains, insert_sorted, insert_timer, erase_timer, remove_timer}

-- Each timer is listed once.
abbrev pub IsUnique : List ℕ → Type 0
IsUnique [] = Unit {0}
IsUnique (x ∷ xs) = (contains x xs ≡ false) × IsUnique xs

contains-absorb :
    (t u : ℕ) (ts : List ℕ) → contains t ts ≡ true → contains u ts ≡ (t == u || contains u ts)
contains-absorb t u ts h = elim (ℕ_discrete t u) [
  | yes e ↦ rw (← e, ==_refl t, h)
  | no ne ↦ rw (==_ne t u ne)
]

module _ (expiry : ℕ → ℕ) where
  -- No timer of the list expires before `e`.
  abbrev pub From : ℕ → List ℕ → Type 0
  From e [] = Unit {0}
  From e (x ∷ xs) = (e ≤ expiry x) × From e xs

  abbrev pub IsSorted : List ℕ → Type 0
  IsSorted [] = Unit {0}
  IsSorted (x ∷ xs) = From (expiry x) xs × IsSorted xs

  -- No timer of the list expires after `e`.
  abbrev pub Until : ℕ → List ℕ → Type 0
  Until e [] = Unit {0}
  Until e (x ∷ xs) = (expiry x ≤ e) × Until e xs

  From-mono : (d e : ℕ) (xs : List ℕ) → d ≤ e → From e xs → From d xs
  From-mono d e [] h f = tt
  From-mono d e (x ∷ xs) h f = (omega arith, From-mono d e xs h f.1)

  insert_sorted-From :
      (e t : ℕ) (xs : List ℕ) → e ≤ expiry t → From e xs → From e (insert_sorted expiry t xs)
  unfolding insert_sorted
  insert_sorted-From e t [] h f = (h, tt)
  insert_sorted-From e t (x ∷ xs) h f = ground (arith, insert_sorted-From e t xs h f.1)

  insert_sorted-IsSorted :
      (t : ℕ) (xs : List ℕ) → IsSorted xs → IsSorted (insert_sorted expiry t xs)
  unfolding insert_sorted
  insert_sorted-IsSorted t [] s = (tt, tt)
  insert_sorted-IsSorted t (x ∷ xs) s = ground (
    arith,
    insert_sorted-IsSorted t xs s.1,
    insert_sorted-From (expiry x) t xs,
    From-mono (expiry t) (expiry x) xs,
  )

  contains-insert_sorted :
      (t u : ℕ) (xs : List ℕ) → contains u (insert_sorted expiry t xs) ≡ (t == u || contains u xs)
  unfolding insert_sorted contains
  contains-insert_sorted t u [] = refl
  contains-insert_sorted t u (x ∷ xs) = ground (arith, contains-insert_sorted t u xs)

  insert_sorted-IsUnique :
      (t : ℕ) (xs : List ℕ)
      → contains t xs ≡ false
      → IsUnique xs
      → IsUnique (insert_sorted expiry t xs)
  unfolding insert_sorted contains
  insert_sorted-IsUnique t [] h q = (h, tt)
  insert_sorted-IsUnique t (x ∷ xs) h q =
      ground (arith, insert_sorted-IsUnique t xs, contains-insert_sorted t x xs)

  -- `insertTimerLocked` keeps the list sorted and free of duplicates, and adds exactly the timer.
  pub insert_timer_lem :
      (t : ℕ) (ts : List ℕ)
      → IsSorted ts
      → IsUnique ts
      → let ts' = insert_timer expiry (some t) ts in
        IsSorted ts' × IsUnique ts' × ((u : ℕ) → contains u ts' ≡ (t == u || contains u ts))
  unfolding insert_timer
  insert_timer_lem t ts s q = elim (Bool-cases (contains t ts)) [
    | inl there ↦ rw there (s, q, λ u. contains-absorb t u ts there)
    | inr new ↦ rw new (
      insert_sorted-IsSorted t ts s,
      insert_sorted-IsUnique t ts new q,
      λ u. contains-insert_sorted t u ts,
    )
  ]

  -- Among timers of equal expiry the new one comes last, so they run in the order of their insertion.
  pub insert_sorted-append :
      (t : ℕ) (early late : List ℕ)
      → IsSorted (early ++ late)
      → Until (expiry t) early
      → From (expiry t + 1) late
      → insert_sorted expiry t (early ++ late) ≡ early ++ t ∷ late
  unfolding insert_sorted
  insert_sorted-append t [] [] s u f = refl
  insert_sorted-append t [] (x ∷ late) s u f = ground arith
  insert_sorted-append t (x ∷ early) late s u f =
      ground (arith, insert_sorted-append t early late s.1 u.1 f)

  erase_timer-From : (e t : ℕ) (xs : List ℕ) → From e xs → From e (erase_timer t xs)
  unfolding erase_timer
  erase_timer-From e t [] f = tt
  erase_timer-From e t (x ∷ xs) f = ground (arith, erase_timer-From e t xs f.1)

  erase_timer-IsSorted : (t : ℕ) (xs : List ℕ) → IsSorted xs → IsSorted (erase_timer t xs)
  unfolding erase_timer
  erase_timer-IsSorted t [] s = tt
  erase_timer-IsSorted t (x ∷ xs) s =
      ground (arith, erase_timer-IsSorted t xs s.1, erase_timer-From (expiry x) t xs s.0)

contains-erase_timer :
    (t u : ℕ) (xs : List ℕ)
    → IsUnique xs
    → contains u (erase_timer t xs) ≡ (not (t == u) && contains u xs)
unfolding erase_timer contains
contains-erase_timer t u [] q = ground arith
contains-erase_timer t u (x ∷ xs) q = ground (arith, contains-erase_timer t u xs q.1)

erase_timer-IsUnique : (t : ℕ) (xs : List ℕ) → IsUnique xs → IsUnique (erase_timer t xs)
unfolding erase_timer
erase_timer-IsUnique t [] q = tt
erase_timer-IsUnique t (x ∷ xs) q =
    ground (arith, erase_timer-IsUnique t xs q.1, contains-erase_timer t x xs q.1)

-- `removeTimer` keeps the order and removes exactly the timer.
pub remove_timer_lem :
    (expiry : ℕ → ℕ) (t : ℕ) (ts : List ℕ)
    → IsSorted expiry ts
    → IsUnique ts
    → let ts' = remove_timer (some t) ts in
      IsSorted expiry ts'
      × IsUnique ts'
      × ((u : ℕ) → contains u ts' ≡ (not (t == u) && contains u ts))
unfolding remove_timer
remove_timer_lem expiry t ts s q = (
  erase_timer-IsSorted expiry t ts s,
  erase_timer-IsUnique t ts q,
  λ u. contains-erase_timer t u ts q,
)
