-- ===== src/FixedFunction/Tests.antt =====
-- Runs of three objects, and the life of a callable there.
use c_wrapper.Prelude.{◌+◌, ◌≡◌, refl, true, List, [], ◌∷◌, replicate}
use c_wrapper.FixedFunction.{
  empty, constructs, calls, moves, destroys, Op, makes, assigns, invokes, step, run,
}
use c_wrapper.FixedFunction.Ownership.{held, made, ended, all_valid}
use c_wrapper.FixedFunction.Lifetime.{lifetime_lem}

-- 7 is made in the first object, moved to the second, called there, and gives way to 8.
abbrev ops : List Op
ops = makes 0 7 ∷ assigns 1 0 ∷ invokes 0 ∷ invokes 1 ∷ makes 1 8 ∷ assigns 1 1 ∷ []

trace :
    (run ops (replicate 2 empty)).1
    ≡ constructs 7 ∷ moves 7 ∷ moves 7 ∷ calls 7 ∷ constructs 8 ∷ destroys 7 ∷ moves 8 ∷ []
unfolding run step
trace = refl

lifetime_lem_example :
    let (xs, es) = run ops (replicate 2 empty) in
    (ended 7 es + held 7 xs ≡ made 7 es) × (all_valid xs ≡ true)
lifetime_lem_example = lifetime_lem 7 2 ops refl
