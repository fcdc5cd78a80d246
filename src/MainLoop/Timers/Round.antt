-- ===== src/MainLoop/Timers/Round.antt =====
-- What the loop around `runTimers` does with the timers that are due.
use c_wrapper.Prelude.{
  ℕ, ◌+◌, ◌*◌, ◌^◌, ◌≤◌, ◌<◌, ◌≡◌, refl, arith, true, false, none, some, List, [], ◌∷◌,
  if◌then◌else◌, ◌==◌, ltb, length, Bool-cases, inl, inr, mod-eq_of_lt,
}
use c_wrapper.Timer.{infinite, make_expiry}
use c_wrapper.TimerList.{take_expired, next_timeout}
use c_wrapper.TimerList.Order.{IsSorted, IsUnique}
use c_wrapper.TimerList.Due.{next_timeout_lem}
use c_wrapper.MainLoop.Timers.{
  Setup, Timers, Turn, keeps, execute, requeue, run_expired, run_timers, run_round,
}
use c_wrapper.MainLoop.Timers.Counts.{Ended, ends_here-Counts, not_run-Ended, run_first-Ended}
use c_wrapper.MainLoop.Timers.Later.{due, due-length, Off, gone-Off, later-Off}

-- The tick counts of the turns do not go back, from `now`, nor past the limit.
abbrev pub IsPrompt : ℕ → ℕ → List Turn → Type 0
IsPrompt now limit [] = Unit {0}
IsPrompt now limit (m ∷ ms) =
    (now ≤ m.taken_at)
    × (m.taken_at ≤ m.executed_at)
    × (m.executed_at ≤ m.looked_at)
    × (m.looked_at ≤ limit)
    × IsPrompt m.looked_at limit ms

-- Every timer is set to more than the time from the start to the limit, and no expiry wraps around.
pub record IsSlow (setup : ℕ → Setup) (start limit : ℕ) : Type 0 where
  pub long : (t : ℕ) → limit < start + (setup t).interval
  pub small : (t : ℕ) → limit + (setup t).interval < 2 ^ 64

module _ (setup : ℕ → Setup) (start limit : ℕ) (slow : IsSlow setup start limit) where
  make_expiry-late :
      (t now : ℕ)
      → start ≤ now
      → now ≤ limit
      → ((setup t).interval == infinite) ≡ false
      → limit < make_expiry (setup t).interval now
  unfolding make_expiry
  make_expiry-late t now p q h = rw h (
      rw (mod-eq_of_lt {n = now + (setup t).interval} {m = 2 ^ 64} (omega (arith, slow.small t)))
        (omega (arith, slow.long t)))

  run_expired-Off :
      (expiry : ℕ → ℕ) (t : ℕ) (xs : List ℕ) (m : Turn)
      → IsSorted expiry (t ∷ xs)
      → IsUnique (t ∷ xs)
      → start ≤ m.executed_at
      → m.executed_at ≤ limit
      → Off limit expiry t xs (run_expired setup (record { expiry = expiry; list = xs }) (some t) m)
  unfolding run_expired execute requeue
  run_expired-Off expiry t xs m s q p r = elim (Bool-cases (keeps (setup t) m)) [
    | inl kept ↦ rw kept (
        later-Off limit expiry t xs s.1 q.1 q.0 (make_expiry (setup t).interval m.executed_at)
          (make_expiry-late t m.executed_at p r (finite kept)))
    | inr over ↦ rw over (gone-Off limit expiry t xs s.1 q.1 q.0)
  ]
    where
      finite : keeps (setup t) m ≡ true → ((setup t).interval == infinite) ≡ false
      finite h = unfold keeps in ground arith

-- How many turns are left at most.
abbrev pub left : ℕ → ℕ → Timers → ℕ
left now limit s =
    2 * due limit s.expiry s.list + (if next_timeout s.expiry now s.list == 0 then 0 else 1)

module _ (setup : ℕ → Setup) (start limit : ℕ) (slow : IsSlow setup start limit) where
  -- What is left of the loop after a turn.
  rest_of_round :
      (ms : List Turn) (now : ℕ) (s : Timers)
      → IsSorted s.expiry s.list
      → IsUnique s.list
      → ((next_timeout s.expiry now s.list == 0) ≡ true → Ended now limit s (run_round setup s ms))
      → let wait = next_timeout s.expiry now s.list in
        Ended now limit s (if wait == 0 then run_round setup s ms else some (s, wait, []))
  rest_of_round ms now s q u next = elim (Bool-cases (next_timeout s.expiry now s.list == 0)) [
    | inl more ↦ rw more (next more)
    | inr over ↦ rw over (record {
      state = s;
      wait = next_timeout s.expiry now s.list;
      ran = [];
      returned = refl;
      sorted = q;
      unique = u;
      positive = ground arith;
      short = (next_timeout_lem s.expiry now s.list q).0;
      counts = ends_here-Counts limit now s q (ground arith);
    })
  ]

  -- A turn at which no timer is due.
  idle :
      (expiry : ℕ → ℕ) (ts : List ℕ) (m : Turn)
      → let s : Timers = record { expiry = expiry; list = ts } in
        take_expired expiry m.taken_at (λ t. true) ts ≡ (ts, none)
        → run_timers setup s m ≡ (s, next_timeout expiry m.looked_at ts, none)
  unfolding run_timers run_expired
  idle expiry ts m e = rw e refl

  front_later :
      (expiry : ℕ → ℕ) (x : ℕ) (xs : List ℕ) (now : ℕ)
      → now < expiry x
      → (next_timeout expiry now (x ∷ xs) == 0) ≡ false
  unfolding next_timeout
  front_later expiry x xs now h = ground arith

  -- A turn at which the front timer is due.
  busy :
      (expiry : ℕ → ℕ) (x : ℕ) (xs : List ℕ) (m : Turn)
      → ltb m.taken_at (expiry x) ≡ false
      → let s = run_expired setup (record { expiry = expiry; list = xs }) (some x) m in
        run_timers setup (record { expiry = expiry; list = x ∷ xs }) m
        ≡ (s, next_timeout s.expiry m.looked_at s.list, some x)
  unfolding run_timers take_expired
  busy expiry x xs m e = rw e refl

  none_listed :
      (expiry : ℕ → ℕ) (at : ℕ)
      → (take_expired expiry at (λ t. true) [] ≡ ([], none))
        × ((next_timeout expiry at [] == 0) ≡ false)
  unfolding take_expired next_timeout
  none_listed expiry at = (refl, refl)

  not_due :
      (expiry : ℕ → ℕ) (x : ℕ) (xs : List ℕ) (at : ℕ)
      → ltb at (expiry x) ≡ true
      → take_expired expiry at (λ t. true) (x ∷ xs) ≡ (x ∷ xs, none)
  unfolding take_expired
  not_due expiry x xs at e = rw e refl

  run_round-Ended :
      (ms : List Turn) (now : ℕ) (expiry : ℕ → ℕ) (ts : List ℕ)
      → start ≤ now
      → IsPrompt now limit ms
      → IsSorted expiry ts
      → IsUnique ts
      → left now limit (record { expiry = expiry; list = ts }) < length ms
      → Ended now limit
          (record { expiry = expiry; list = ts })
          (run_round setup (record { expiry = expiry; list = ts }) ms)
  unfolding run_round
  run_round-Ended [] now expiry ts p pr q u more = absurd (omega arith)
  run_round-Ended (m ∷ ms) now expiry [] p (a, b, c, d, pr) q u more =
      rw (idle expiry [] m (none_listed expiry m.taken_at).0) (
        not_run-Ended now m.looked_at limit _ _ (omega arith) (
          rest_of_round ms m.looked_at (record { expiry = expiry; list = [] }) q u
            (λ h.
              run_round-Ended ms m.looked_at expiry [] (omega arith) pr q u
                (ground (arith, (none_listed expiry m.looked_at).1)))))
  run_round-Ended (m ∷ ms) now expiry (x ∷ xs) p (a, b, c, d, pr) q u more =
      elim (Bool-cases (ltb m.taken_at (expiry x))) [
        | inl early ↦ rw (idle expiry (x ∷ xs) m (not_due expiry x xs m.taken_at early)) (
            not_run-Ended now m.looked_at limit _ _ (omega arith) (
              rest_of_round ms m.looked_at (record { expiry = expiry; list = x ∷ xs }) q u
                (λ h.
                  run_round-Ended ms m.looked_at expiry (x ∷ xs) (omega arith) pr q u
                    (ground (arith, front_later expiry x xs now (ground arith))))))
        | inr front_due ↦
            let s = run_expired setup (record { expiry = expiry; list = xs }) (some x) m in
            let off =
              run_expired-Off setup start limit slow expiry x xs m q u (omega arith)
                (omega arith) in
            rw (busy expiry x xs m front_due) (
              run_first-Ended now m.looked_at limit expiry x xs s _ (omega arith) (ground arith) off
                (rest_of_round ms m.looked_at s off.sorted off.unique (λ h.
                  run_round-Ended ms m.looked_at s.expiry s.list (omega arith) pr off.sorted
                    off.unique (ground (arith, off.fewer)))))
      ]

-- From a list that is in order, whose timers the loop looks at from the start to the limit on: if
-- every timer is set to more than the time between the two, no expiry wraps around, and the clock
-- does not go back, then the loop around runTimers ends after at most twice as many turns as there
-- are timers, and two; the list is in order again, the time to wait is positive and at most ten
-- seconds, each timer that was due at the start has been executed exactly once, and no timer more
-- than once.
pub run_round_lem :
    (setup : ℕ → Setup) (start limit : ℕ) (expiry : ℕ → ℕ) (ts : List ℕ) (ms : List Turn)
    → IsSlow setup start limit
    → IsPrompt start limit ms
    → IsSorted expiry ts
    → IsUnique ts
    → 2 * length ts + 1 < length ms
    → let s : Timers = record { expiry = expiry; list = ts } in
      Ended start limit s (run_round setup s ms)
run_round_lem setup start limit expiry ts ms slow prompt q u enough =
    run_round-Ended setup start limit slow ms start expiry ts (omega arith) prompt q u
      (ground (arith, due-length limit expiry ts))
