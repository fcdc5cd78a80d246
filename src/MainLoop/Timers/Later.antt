-- ===== src/MainLoop/Timers/Later.antt =====
-- A timer whose expiry is put off.
use c_wrapper.Prelude.{
  ℕ, ◌+◌, ◌≤◌, ◌<◌, ◌≡◌, ◌≢◌, refl, arith, true, false, some, List, [], ◌∷◌, if◌then◌else◌, leb,
  length, ==_ne, ==_refl, ◌∙◌, sym,
}
use c_wrapper.TimerList.{
  contains, insert_sorted, insert_timer, take_expired, next_timeout, wait_time_ms,
}
use c_wrapper.TimerList.Order.{From, IsSorted, IsUnique, insert_timer_lem}
use c_wrapper.MainLoop.Timers.{Setup, Timers, Turn, renewed, run_expired, run_timers, run_round}

-- How many timers of the list are due at the time.
abbrev pub due : ℕ → (ℕ → ℕ) → List ℕ → ℕ
due limit expiry [] = 0
due limit expiry (x ∷ xs) = (if leb (expiry x) limit then 1 else 0) + due limit expiry xs

pub due-length : (limit : ℕ) (expiry : ℕ → ℕ) (xs : List ℕ) → due limit expiry xs ≤ length xs
due-length limit expiry [] = omega arith
due-length limit expiry (x ∷ xs) = ground (arith, due-length limit expiry xs)

due-insert_sorted :
    (limit : ℕ) (expiry : ℕ → ℕ) (t : ℕ) (xs : List ℕ)
    → limit < expiry t
    → due limit expiry (insert_sorted expiry t xs) ≤ due limit expiry xs
unfolding insert_sorted
due-insert_sorted limit expiry t [] h = ground arith
due-insert_sorted limit expiry t (x ∷ xs) h = ground (arith, due-insert_sorted limit expiry t xs h)

due-insert_timer :
    (limit : ℕ) (expiry : ℕ → ℕ) (t : ℕ) (xs : List ℕ)
    → limit < expiry t
    → contains t xs ≡ false
    → due limit expiry (insert_timer expiry (some t) xs) ≤ due limit expiry xs
unfolding insert_timer
due-insert_timer limit expiry t xs h new = rw new (due-insert_sorted limit expiry t xs h)

module _ (expiry : ℕ → ℕ) (t e : ℕ) where
  From-renewed :
      (d : ℕ) (xs : List ℕ)
      → contains t xs ≡ false
      → From expiry d xs
      → From (renewed expiry t e) d xs
  unfolding contains
  From-renewed d [] h f = tt
  From-renewed d (x ∷ xs) h f = ground (arith, From-renewed d xs)

  IsSorted-renewed :
      (xs : List ℕ) → contains t xs ≡ false → IsSorted expiry xs → IsSorted (renewed expiry t e) xs
  unfolding contains
  IsSorted-renewed [] h s = tt
  IsSorted-renewed (x ∷ xs) h s = ground (arith, From-renewed (expiry x) xs, IsSorted-renewed xs)

  due-renewed :
      (limit : ℕ) (xs : List ℕ)
      → limit < e
      → due limit (renewed expiry t e) xs ≤ due limit expiry xs
  due-renewed limit [] h = omega arith
  due-renewed limit (x ∷ xs) h = ground (arith, due-renewed limit xs h)

-- The state after a timer `t` came off the front of the list with the others left: it is gone, or put
-- off to after the limit.
pub record Off (limit : ℕ) (expiry : ℕ → ℕ) (t : ℕ) (xs : List ℕ) (s : Timers) : Type 0 where
  pub sorted : IsSorted s.expiry s.list
  pub unique : IsUnique s.list
  pub others : (u : ℕ) → t ≢ u → (contains u s.list ≡ contains u xs) × (s.expiry u ≡ expiry u)
  pub itself : contains t s.list ≡ true → limit < s.expiry t
  pub fewer : due limit s.expiry s.list ≤ due limit expiry xs

module _ (limit : ℕ) (expiry : ℕ → ℕ) (t : ℕ) (xs : List ℕ) (s : IsSorted expiry xs)
    (q : IsUnique xs) (new : contains t xs ≡ false) where
  pub gone-Off : Off limit expiry t xs (record { expiry = expiry; list = xs })
  gone-Off = record {
    sorted = s;
    unique = q;
    others = λ u ne. (refl, refl);
    itself = λ h. cc;
    fewer = omega arith;
  }

  pub later-Off :
      (e : ℕ)
      → limit < e
      → Off limit expiry t xs (record {
        expiry = renewed expiry t e;
        list = insert_timer (renewed expiry t e) (some t) xs;
      })
  later-Off e h =
      let (s', q', same) =
        insert_timer_lem (renewed expiry t e) t xs (IsSorted-renewed expiry t e xs new s) q in
      record {
        sorted = s';
        unique = q';
        others = λ u ne. (same u ∙ rw (==_ne t u ne) refl, rw (==_ne u t (λ p. ne (sym p))) refl);
        itself = λ there. rw (==_refl t) h;
        fewer = omega (
          arith,
          due-insert_timer limit (renewed expiry t e) t xs (rw (==_refl t) h) new,
          due-renewed expiry t e limit xs h,
        );
      }

-- Without timers the loop ends in its first turn, with the longest time to wait.
pub run_round-none :
    (setup : ℕ → Setup) (expiry : ℕ → ℕ) (m : Turn) (ms : List Turn)
    → let s : Timers = record { expiry = expiry; list = [] } in
      run_round setup s (m ∷ ms) ≡ some (s, wait_time_ms, [])
unfolding run_round run_timers run_expired take_expired next_timeout
run_round-none setup expiry m ms = refl
