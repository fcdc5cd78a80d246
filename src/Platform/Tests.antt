-- ===== src/Platform/Tests.antt =====
-- A system that accepts every signal.
use c_wrapper.Prelude.{ℕ, ◌≡◌, false, refl, true, some, none, if◌then◌else◌, ◌==◌, ==_refl, ==_ne}
use c_wrapper.Platform.{Signals, init, fresh, Statics, create, terminated}
use c_wrapper.Platform.Handlers.{idle, Works, init_lem}
use c_wrapper.Platform.Instance.{Undone, life_lem}

abbrev put : (ℕ → ℕ) → ℕ → ℕ → ℕ → ℕ
put k s a u = if u == s then a else k u

abbrev lenient : Signals
lenient = record {
  State = ℕ → ℕ;
  action = λ k u. k u;
  sigaction = λ k s a. (put k s a, some (k s));
  replaces = λ k s a old e. cc;
  installs = λ k s a old e. rw (==_refl s) refl;
  fails = λ k s a e. absurd (cc e);
  keeps = λ k s a u ne. rw (==_ne u s ne) refl;
  accepts = λ k l s a b old e. (l s, refl);
}

init_lem_test :
    Works lenient 7 (λ s. 0) (some 9) (init lenient 7 (λ s. 0) (idle 0 0 none) (some true) (some 9))
init_lem_test = init_lem lenient 7 (λ s. 0) 0 0 none (some true) (some 9)

life_lem_example :
    ((st : Statics) × (create true 3 (record { instantiated = false; loop = none })
        ≡ some (st, fresh))
      × (terminated st ≡ some 3))
    × Undone lenient 7 (λ s. 0) (some 9) (init lenient 7 (λ s. 0) fresh (some true) (some 9))
life_lem_example = life_lem lenient 7 (λ s. 0) true 3 none (some true) (some 9)
