-- ===== src/MainLoop/Wakeup/Progress.antt =====
-- What the loop does about what the other threads have announced.
use c_wrapper.Prelude.{
  ℕ, zero, suc, ◌+◌, ◌≤◌, ◌<◌, ◌≡◌, refl, arith, Bool, true, false, List, [], ◌∷◌, ◌++◌, ◌&&◌, ◌||◌,
  not, if◌then◌else◌, ◌==◌, length, ap, dec_lt,
}
use c_wrapper.MainLoop.Wakeup.{
  LoopPc, running, timing, polling, draining, checking, exited, System, init, is_empty, Input,
  run_functions, read_pipe, loop_at, loop_step, Move, run,
}
use c_wrapper.MainLoop.Wakeup.Invariant.{IsSound, init-IsSound, run-IsSound, loop_step-IsSound}

abbrev pub is_polling : LoopPc → Bool
is_polling polling = true
is_polling _ = false

-- Something waits for the loop: a function, a new timer, or the end.
abbrev pub has_news : System → Bool
has_news s = not (is_empty s.queue) || s.fresh || s.terminated

-- No thread is between what it has stored and its byte.
abbrev pub is_settled : System → Bool
is_settled s = not s.posting && s.wakers == 0 && s.enders == 0

-- No wakeup is lost: in every interleaving, with a pipe that holds a byte at least, when the loop is
-- in epoll_wait, something waits for it and every thread has written its byte, then there is a byte
-- in the pipe and epoll_wait returns to drain it, whatever else happens.
pub no_lost_wakeup :
    (cap : ℕ) (ms : List Move) (i : Input)
    → 0 < cap
    → let s = run cap ms init in
      (is_polling s.loop && has_news s && is_settled s) ≡ true
      → (is_empty s.pipe ≡ false) × ((loop_step i s).loop ≡ draining false)
unfolding loop_step loop_at
no_lost_wakeup cap ms i pos h = let v = run-IsSound cap pos ms init init-IsSound in ground arith

-- In every interleaving, the functions that were called and those that wait are the functions that
-- were posted, in the order in which they were taken.
pub run-order :
    (cap : ℕ) (ms : List Move) → 0 < cap → let s = run cap ms init in s.ran ++ s.queue ≡ s.posted
run-order cap ms pos = (run-IsSound cap pos ms init init-IsSound).order

-- An access of the loop when no timer is due and nothing else ends `epoll_wait`.
abbrev pub quiet : Input
quiet = record { due = false; ends = false }

abbrev pub loop_steps : ℕ → System → System
loop_steps zero s = s
loop_steps (suc n) s = loop_steps n (loop_step quiet s)

-- How many accesses the loop may need from here to its end.
abbrev pub to_end : LoopPc → ℕ → ℕ → ℕ
to_end (running true) waiting bytes = waiting + bytes + 7
to_end (running false) waiting bytes = if waiting == 0 then bytes + 5 else waiting + bytes + 7
to_end timing waiting bytes = bytes + 4
to_end polling waiting bytes = bytes + 3
to_end (draining t) waiting bytes = bytes + 2
to_end (checking t) waiting bytes = 1
to_end exited waiting bytes = 0

abbrev rank : System → ℕ
rank s = to_end s.loop (length s.queue) (length s.pipe)

abbrev ending : System → Bool
ending s = s.terminated && is_settled s

run_functions-rank :
    (queue : List ℕ) (any : Bool) (s : System)
    → s.queue ≡ queue
    → s.loop ≡ running any
    → rank (run_functions queue any s) < rank s
unfolding run_functions
run_functions-rank [] any s q e = ground arith
run_functions-rank (f ∷ fs) any s q e = ground (arith, ap length q)

read_pipe-rank :
    (pipe : List ℕ) (t : Bool) (s : System)
    → s.pipe ≡ pipe
    → s.loop ≡ draining t
    → rank (read_pipe pipe t s) < rank s
unfolding read_pipe
read_pipe-rank [] t s q e = ground arith
read_pipe-rank (b ∷ bs) t s q e = ground (arith, ap length q)

rank-loop_at :
    (pc : LoopPc) (s : System)
    → s.loop ≡ pc
    → IsSound s
    → ending s ≡ true
    → 0 < rank s
    → rank (loop_at pc quiet s) < rank s
unfolding loop_at
rank-loop_at exited s e v h k = ground arith
rank-loop_at (running any) s e v h k = ground (arith, run_functions-rank s.queue any s)
rank-loop_at (draining t) s e v h k = read_pipe-rank s.pipe t s refl e
rank-loop_at pc s e v h k = ground arith

ending-run_functions :
    (queue : List ℕ) (any : Bool) (s : System)
    → ending s ≡ true
    → ending (run_functions queue any s) ≡ true
unfolding run_functions
ending-run_functions [] any s h = ground arith
ending-run_functions (f ∷ fs) any s h = ground arith

ending-read_pipe :
    (pipe : List ℕ) (t : Bool) (s : System) → ending s ≡ true → ending (read_pipe pipe t s) ≡ true
unfolding read_pipe
ending-read_pipe [] t s h = ground arith
ending-read_pipe (b ∷ bs) t s h = ground arith

to_end-le : (pc : LoopPc) (w b : ℕ) → to_end pc w b ≤ w + b + 7
to_end-le exited w b = omega arith
to_end-le (running true) w b = omega arith
to_end-le (running false) w b = ground arith
to_end-le pc w b = omega arith

is_exited_of_rank : (pc : LoopPc) (w b : ℕ) → to_end pc w b ≡ 0 → pc ≡ exited
is_exited_of_rank exited w b h = refl
is_exited_of_rank (running true) w b h = absurd (omega arith)
is_exited_of_rank (running false) w b h = ground arith
is_exited_of_rank pc w b h = absurd (omega arith)

rank_falls :
    (n : ℕ) (s : System)
    → IsSound s
    → ending s ≡ true
    → rank s ≤ suc n
    → rank (loop_at s.loop quiet s) ≤ n
rank_falls n s v h k = elim (dec_lt 0 (rank s)) [
  | yes more ↦ omega (arith, rank-loop_at s.loop s refl v h more)
  | no none_left ↦
      let e : s.loop ≡ exited =
        is_exited_of_rank s.loop (length s.queue) (length s.pipe) (omega arith) in
      unfold loop_at in rw e (omega arith)
]

ending-loop_at : (pc : LoopPc) (s : System) → ending s ≡ true → ending (loop_at pc quiet s) ≡ true
unfolding loop_at
ending-loop_at exited s h = h
ending-loop_at (running any) s h = ground (arith, ending-run_functions s.queue any s)
ending-loop_at (draining t) s h = ending-read_pipe s.pipe t s h
ending-loop_at pc s h = ground arith

ends_within :
    (n : ℕ) (s : System) → IsSound s → ending s ≡ true → rank s ≤ n → (loop_steps n s).loop ≡ exited
ends_within zero s v h k = is_exited_of_rank s.loop (length s.queue) (length s.pipe) (omega arith)
ends_within (suc n) s v h k =
    ends_within n (loop_step quiet s) (loop_step-IsSound quiet s v)
      (unfold loop_step in ending-loop_at s.loop s h) (unfold loop_step in rank_falls n s v h k)

-- The loop ends: in every interleaving, once terminate has stored its flag and written its byte and
-- no other thread is between what it has stored and its byte, the loop returns within as many of its
-- accesses as there are functions that wait and bytes in the pipe, and seven more, while no timer is
-- due.
pub ends_lem :
    (cap : ℕ) (ms : List Move) (n : ℕ)
    → 0 < cap
    → let s = run cap ms init in
      (s.terminated && is_settled s) ≡ true
      → length s.queue + length s.pipe + 7 ≤ n
      → (loop_steps n s).loop ≡ exited
ends_lem cap ms n pos h k =
    let s = run cap ms init in
    ends_within n s (run-IsSound cap pos ms init init-IsSound) h
      (omega (arith, to_end-le s.loop (length s.queue) (length s.pipe)))
