-- ===== src/MainLoop/Wakeup/Runs.antt =====
-- That every function that was posted is called.
use c_wrapper.Prelude.{
  ℕ, zero, suc, ◌+◌, ◌≤◌, ◌<◌, ◌≡◌, refl, arith, Bool, true, false, List, [], ◌∷◌, ◌++◌, ◌&&◌, not,
  if◌then◌else◌, ◌==◌, length, ap, ◌∙◌, ◌≢◌, sym,
}
use mathlib.Core.List.{append-nil}
use c_wrapper.MainLoop.Wakeup.{
  LoopPc, running, timing, polling, draining, checking, exited, System, init, is_empty,
  run_functions, read_pipe, loop_at, loop_step, Move, run,
}
use c_wrapper.MainLoop.Wakeup.Invariant.{IsSound, init-IsSound, run-IsSound, loop_step-IsSound}
use c_wrapper.MainLoop.Wakeup.Progress.{is_settled, quiet, loop_steps}

-- The loop is not asked to end, and every thread has written its byte.
abbrev serving : System → Bool
serving s = not s.terminated && is_settled s

-- How many accesses the loop may need until no function waits.
abbrev to_idle : LoopPc → ℕ → ℕ → ℕ
to_idle (running any) waiting bytes = waiting
to_idle timing waiting bytes = waiting + bytes + 4
to_idle polling waiting bytes = waiting + bytes + 3
to_idle (draining t) waiting bytes = waiting + bytes + 2
to_idle (checking t) waiting bytes = waiting + 1
to_idle exited waiting bytes = 0

abbrev rank : System → ℕ
rank s = if length s.queue == 0 then 0 else to_idle s.loop (length s.queue) (length s.pipe)

run_functions-rank :
    (queue : List ℕ) (any : Bool) (s : System)
    → s.queue ≡ queue
    → s.loop ≡ running any
    → 0 < length queue
    → rank (run_functions queue any s) < rank s
unfolding run_functions
run_functions-rank [] any s q e h = absurd (omega arith)
run_functions-rank (f ∷ fs) any s q e h = ground (arith, ap length q)

run_functions-kept :
    (queue : List ℕ) (any : Bool) (s : System)
    → s.queue ≡ queue
    → (serving (run_functions queue any s) ≡ serving s)
      × (length (run_functions queue any s).queue ≤ length queue)
      × ((run_functions queue any s).posted ≡ s.posted)
unfolding run_functions
run_functions-kept [] any s q = ground (arith, ap length q)
run_functions-kept (f ∷ fs) any s q = ground arith

read_pipe-rank :
    (pipe : List ℕ) (t : Bool) (s : System)
    → s.pipe ≡ pipe
    → s.loop ≡ draining t
    → 0 < length s.queue
    → rank (read_pipe pipe t s) < rank s
unfolding read_pipe
read_pipe-rank [] t s q e h = ground arith
read_pipe-rank (b ∷ bs) t s q e h = ground (arith, ap length q)

read_pipe-kept :
    (pipe : List ℕ) (t : Bool) (s : System)
    → (serving (read_pipe pipe t s) ≡ serving s)
      × ((read_pipe pipe t s).queue ≡ s.queue)
      × ((read_pipe pipe t s).posted ≡ s.posted)
unfolding read_pipe
read_pipe-kept [] t s = ground arith
read_pipe-kept (b ∷ bs) t s = ground arith

is_empty_of_pos : (xs : List ℕ) → 0 < length xs → is_empty xs ≡ false
is_empty_of_pos [] h = absurd (omega arith)
is_empty_of_pos (x ∷ xs) h = refl

rank-loop_at :
    (pc : LoopPc) (s : System)
    → s.loop ≡ pc
    → IsSound s
    → serving s ≡ true
    → 0 < length s.queue
    → rank (loop_at pc quiet s) < rank s
unfolding loop_at
rank-loop_at exited s e v h k = ground arith
rank-loop_at (running any) s e v h k = ground (arith, run_functions-rank s.queue any s)
rank-loop_at (draining t) s e v h k = read_pipe-rank s.pipe t s refl e k
rank-loop_at polling s e v h k = ground (arith, is_empty_of_pos s.queue k)
rank-loop_at pc s e v h k = ground arith

loop_at-kept :
    (pc : LoopPc) (s : System)
    → (serving (loop_at pc quiet s) ≡ serving s)
      × (length (loop_at pc quiet s).queue ≤ length s.queue)
      × ((loop_at pc quiet s).posted ≡ s.posted)
unfolding loop_at
loop_at-kept exited s = ground arith
loop_at-kept (running any) s = ground (arith, run_functions-kept s.queue any s)
loop_at-kept (draining t) s = ground (arith, read_pipe-kept s.pipe t s)
loop_at-kept pc s = ground arith

nil_of_length : (xs : List ℕ) → length xs ≡ 0 → xs ≡ []
nil_of_length [] h = refl
nil_of_length (x ∷ xs) h = absurd (omega arith)

rank-nil : (pc : LoopPc) (w b : ℕ) → (if w == 0 then 0 else to_idle pc w b) ≤ w + b + 4
rank-nil (running any) w b = ground arith
rank-nil pc w b = ground arith

not_exited : (s : System) → IsSound s → serving s ≡ true → s.loop ≢ exited
not_exited s v h e = ground arith

pos_of_rank :
    (pc : LoopPc) (w b : ℕ) → pc ≢ exited → 0 < w → 0 < (if w == 0 then 0 else to_idle pc w b)
pos_of_rank exited w b h k = absurd (h refl)
pos_of_rank pc w b h k = ground arith

step_kept :
    (s : System)
    → (serving (loop_step quiet s) ≡ serving s)
      × (length (loop_step quiet s).queue ≤ length s.queue)
      × ((loop_step quiet s).posted ≡ s.posted)
unfolding loop_step
step_kept s = loop_at-kept s.loop s

step_rank :
    (s : System)
    → IsSound s
    → serving s ≡ true
    → 0 < length s.queue
    → rank (loop_step quiet s) < rank s
unfolding loop_step
step_rank s v h k = rank-loop_at s.loop s refl v h k

runs_within :
    (n : ℕ) (s : System)
    → IsSound s
    → serving s ≡ true
    → rank s ≤ n
    → (length (loop_steps n s).queue ≡ 0)
      × ((loop_steps n s).posted ≡ s.posted)
      × IsSound (loop_steps n s)
runs_within zero s v h k = (
  ground (arith, pos_of_rank s.loop (length s.queue) (length s.pipe) (not_exited s v h)),
  refl,
  v,
)
runs_within (suc n) s v h k =
    let (same, fewer, kept) = step_kept s in
    let (none_left, posted, sound) =
      runs_within n (loop_step quiet s) (loop_step-IsSound quiet s v) (same ∙ h)
        (ground (arith, step_rank s)) in
    (none_left, posted ∙ kept, sound)

-- Every function that was posted is called: in every interleaving, while nobody has asked the loop
-- to end and every thread has written its byte, the loop has called all functions posted, in their
-- order, within as many of its accesses as there are functions that wait and bytes in the pipe, and
-- four more, while no timer is due.
pub runs_lem :
    (cap : ℕ) (ms : List Move) (n : ℕ)
    → 0 < cap
    → let s = run cap ms init in
      (not s.terminated && is_settled s) ≡ true
      → length s.queue + length s.pipe + 4 ≤ n
      → (loop_steps n s).ran ≡ s.posted
runs_lem cap ms n pos h k =
    let s = run cap ms init in
    let (none_left, posted, sound) =
      runs_within n s (run-IsSound cap pos ms init init-IsSound) h
        (omega (arith, rank-nil s.loop (length s.queue) (length s.pipe))) in
    sym (append-nil (loop_steps n s).ran)
    ∙ ap (λ q. (loop_steps n s).ran ++ q) (sym (nil_of_length (loop_steps n s).queue none_left))
    ∙ sound.order
    ∙ posted
