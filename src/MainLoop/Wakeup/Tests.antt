-- ===== src/MainLoop/Wakeup/Tests.antt =====
-- Runs of the loop with a pipe of one byte, and the laws there.
use c_wrapper.Prelude.{◌≡◌, refl, arith, false, List, [], ◌∷◌, ◌++◌}
use c_wrapper.MainLoop.Wakeup.{
  draining, exited, init, is_empty, loop_step, put_byte, Move, loops, posts, post_wakes, terminates,
  sends_terminate, step, run,
}
use c_wrapper.MainLoop.Wakeup.Progress.{quiet, loop_steps, no_lost_wakeup, run-order, ends_lem}
use c_wrapper.MainLoop.Wakeup.Runs.{runs_lem}

-- the loop goes to `epoll_wait` while a function is posted
abbrev posted : List Move
posted = loops quiet ∷ loops quiet ∷ posts 5 ∷ post_wakes ∷ posts 6 ∷ post_wakes ∷ []

-- and is asked to end
abbrev ended : List Move
ended = posted ++ (terminates ∷ sends_terminate ∷ [])

no_lost_wakeup_example :
    let s = run 1 posted init in
    (is_empty s.pipe ≡ false) × ((loop_step quiet s).loop ≡ draining false)
no_lost_wakeup_example =
    no_lost_wakeup 1 posted quiet (omega arith) (unfold run step loop_step put_byte in refl)

run-order_test : let s = run 1 posted init in s.ran ++ s.queue ≡ s.posted
run-order_test = run-order 1 posted (omega arith)

ends_lem_example : (loop_steps 10 (run 1 ended init)).loop ≡ exited
ends_lem_example =
    ends_lem 1 ended 10 (omega arith) (unfold run step loop_step put_byte in refl)
      (unfold run step loop_step put_byte in omega arith)

runs_lem_example : (loop_steps 7 (run 1 posted init)).ran ≡ (run 1 posted init).posted
runs_lem_example =
    runs_lem 1 posted 7 (omega arith) (unfold run step loop_step put_byte in refl)
      (unfold run step loop_step put_byte in omega arith)
