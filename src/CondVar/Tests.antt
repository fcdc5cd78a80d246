-- ===== src/CondVar/Tests.antt =====
-- Waits for a number to be 3.
use c_wrapper.Prelude.{ℕ, ◌≡◌, refl, true, false, some, List, [], ◌∷◌, ◌==◌}
use c_wrapper.CondVar.{WaitEnd, wait_until, wait_for}
use c_wrapper.CondVar.Waits.{answers_for, wait_for_lem}

-- woken too early, then out of time
abbrev ends : List (WaitEnd ℕ)
ends = record { found = 1; timed_out = false } ∷ record { found = 3; timed_out = true } ∷ []

late_but_met : wait_for (λ n. n == 3) false 0 ends ≡ some (3, true)
unfolding wait_for wait_until
late_but_met = refl

wait_for_lem_example : answers_for (λ n. n == 3) (wait_for (λ n. n == 3) false 0 ends) ≡ true
wait_for_lem_example = wait_for_lem (λ n. n == 3) false 0 ends refl
