-- ===== src/MainLoop/Functions/Tests.antt =====
-- Runs of the posted functions.
use c_wrapper.Prelude.{suc, refl, arith, false, [], ◌∷◌, ◌++◌, replicate}
use c_wrapper.CircularQueue
use c_wrapper.CircularQueue.Invariant.{init-IsValid}
use c_wrapper.FixedFunction.{empty}
use c_wrapper.MainLoop.Wakeup.{max_functions}
use c_wrapper.MainLoop.Functions.{run_functions}
use c_wrapper.MainLoop.Functions.Held.{Holds}
use c_wrapper.MainLoop.Functions.Order.{Done, run_functions_lem}

no_functions-Holds : Holds (CircularQueue.init max_functions empty) []
unfolding CircularQueue.init
no_functions-Holds = record {
  valid = init-IsValid max_functions empty (omega arith) (omega arith);
  same = refl;
}

-- Functions are posted before the loop reads the queue, while it runs, and none in between.
run_functions_lem_example : Done false [] (
    run_functions
      (CircularQueue.init max_functions empty)
      ((1 ∷ 2 ∷ []) ∷ [] ∷ (3 ∷ []) ∷ [] ++ replicate (suc max_functions) []))
run_functions_lem_example =
    run_functions_lem (CircularQueue.init max_functions empty) []
      ((1 ∷ 2 ∷ []) ∷ [] ∷ (3 ∷ []) ∷ []) no_functions-Holds
