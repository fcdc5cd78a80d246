-- ===== src/MainLoop/Timers/Counts.antt =====
-- What a round of the timers has executed.
use c_wrapper.Prelude.{
  ℕ, ◌+◌, ◌≤◌, ◌<◌, ◌≡◌, refl, arith, true, Option, none, some, List, [], ◌∷◌, ◌||◌, ◌&&◌,
  if◌then◌else◌, ◌==◌, leb, ==_ne, ==_refl, subst, ℕ_discrete,
}
use c_wrapper.TimerList.{contains, next_timeout, wait_time_ms}
use c_wrapper.TimerList.Order.{IsSorted, IsUnique}
use c_wrapper.TimerList.Due.{next_timeout-pos}
use c_wrapper.MainLoop.Timers.{Timers, with_ran}
use c_wrapper.MainLoop.Timers.Later.{Off}

-- How often the timer was executed.
abbrev pub times : ℕ → List ℕ → ℕ
times u [] = 0
times u (t ∷ ts) = (if t == u then 1 else 0) + times u ts

-- What was executed, from a state whose timers are looked at from `now` to the limit on: each timer
-- that is due at `now` once, and no timer twice, or that is not due by the limit.
pub record Counts (now limit : ℕ) (s : Timers) (ran : List ℕ) : Type 0 where
  pub at_most :
      (u : ℕ) → times u ran ≤ (if contains u s.list && leb (s.expiry u) limit then 1 else 0)
  pub all : (u : ℕ) → contains u s.list ≡ true → s.expiry u ≤ now → times u ran ≡ 1

-- The loop ends, with its list in order and a time to wait, and has executed what it should.
pub record Ended (now limit : ℕ) (s : Timers) (r : Option (Timers × ℕ × List ℕ)) : Type 0 where
  pub state : Timers
  pub wait : ℕ
  pub ran : List ℕ
  pub returned : r ≡ some (state, wait, ran)
  pub sorted : IsSorted state.expiry state.list
  pub unique : IsUnique state.list
  pub positive : 0 < wait
  pub short : wait ≤ wait_time_ms
  pub counts : Counts now limit s ran

pub ends_here-Counts :
    (limit now : ℕ) (s : Timers)
    → IsSorted s.expiry s.list
    → 0 < next_timeout s.expiry now s.list
    → Counts now limit s []
ends_here-Counts limit now s q pos = record {
  at_most = λ u. omega arith;
  all = λ u there h. absurd (omega (arith, next_timeout-pos s.expiry now s.list u q pos there));
}

later-Counts :
    (now looked limit : ℕ) (s : Timers) (ran : List ℕ)
    → now ≤ looked
    → Counts looked limit s ran
    → Counts now limit s ran
later-Counts now looked limit s ran le c = record {
  at_most = c.at_most;
  all = λ u there h. c.all u there (omega arith);
}

module _ (now looked limit : ℕ) (expiry : ℕ → ℕ) (x : ℕ) (xs : List ℕ) (s : Timers) (ran : List ℕ)
    (le : now ≤ looked) (h : expiry x ≤ limit) (off : Off limit expiry x xs s)
    (c : Counts looked limit s ran) where
  -- The timer at the front is not executed again.
  not_again : times x ran ≡ 0
  not_again = ground (arith, c.at_most x, off.itself)

  once_now : times x (x ∷ ran) ≡ 1
  once_now = rw (==_refl x) (omega (arith, not_again))

  Counts-first : Counts now limit (record { expiry = expiry; list = x ∷ xs }) (x ∷ ran)
  unfolding contains
  Counts-first = record {
    at_most = λ u. elim (ℕ_discrete x u) [
      | yes e ↦
          subst
            (λ v.
              times v (x ∷ ran)
              ≤ (if (x == v || contains v xs) && leb (expiry v) limit then 1 else 0))
            e (ground (arith, once_now, ==_refl x))
      | no ne ↦
          let (there, same) = off.others u ne in
          rw (==_ne x u ne, ← there, ← same) (omega (arith, c.at_most u))
    ];
    all = λ u there d. elim (ℕ_discrete x u) [
      | yes e ↦ subst (λ v. times v (x ∷ ran) ≡ 1) e once_now
      | no ne ↦
          let (among, same) = off.others u ne in
          rw (==_ne x u ne) (omega (arith, c.all u (ground (arith, ==_ne x u ne)) (omega arith)))
    ];
  }

pub not_run-Ended :
    (now looked limit : ℕ) (s : Timers) (r : Option (Timers × ℕ × List ℕ))
    → now ≤ looked
    → Ended looked limit s r
    → Ended now limit s (with_ran none r)
not_run-Ended now looked limit s r le d = record {
  state = d.state;
  wait = d.wait;
  ran = d.ran;
  returned = rw d.returned refl;
  sorted = d.sorted;
  unique = d.unique;
  positive = d.positive;
  short = d.short;
  counts = later-Counts now looked limit s d.ran le d.counts;
}

pub run_first-Ended :
    (now looked limit : ℕ) (expiry : ℕ → ℕ) (x : ℕ) (xs : List ℕ) (s : Timers)
    (r : Option (Timers × ℕ × List ℕ))
    → now ≤ looked
    → expiry x ≤ limit
    → Off limit expiry x xs s
    → Ended looked limit s r
    → Ended now limit (record { expiry = expiry; list = x ∷ xs }) (with_ran (some x) r)
run_first-Ended now looked limit expiry x xs s r le h off d = record {
  state = d.state;
  wait = d.wait;
  ran = x ∷ d.ran;
  returned = rw d.returned refl;
  sorted = d.sorted;
  unique = d.unique;
  positive = d.positive;
  short = d.short;
  counts = Counts-first now looked limit expiry x xs s d.ran le h off d.counts;
}
