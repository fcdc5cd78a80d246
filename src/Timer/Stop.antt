-- ===== src/Timer/Stop.antt =====
-- What `stop`, `stopAndWait` and the destructor bring about.
use c_wrapper.Prelude.{
  ℕ, suc, ◌≤◌, ◌<◌, ◌≡◌, refl, arith, Bool, true, false, List, [], ◌∷◌, ◌⊎◌, inl, inr, ap, sym,
  subst, ◌++◌,
}
use c_wrapper.Timer.{
  stopped, Call, LoopPc, away, taking, calling, called, checking, renewing, pending, announcing,
  requeue_start, requeue_check, inserting, inserted, unlisting, finishing, waking, ControlPc, free,
  done, clearing, gone, System, init, loop_step, loop_at, control_step, control_at, Move, loops,
  controls, begins, sets_handler, sets_interval, sets_repeat, step, run, Input, begin_at,
}
use c_wrapper.Timer.Invariant.{IsSound, init-IsSound, run-IsSound, step-IsSound, has_left}

-- Whenever `stop` (on a timer that does not execute), `stopAndWait` or the destructor returns, the
-- timer is stopped, the loop's list does not hold it, and the loop thread has let go of it but for a
-- last broadcast: its handler does not run.
pub done_lem :
    (ms : List Move) (c : Call)
    → let s = run ms init in
      s.control ≡ done c → (s.state ≡ stopped) × (s.listed ≡ false) × (has_left s.loop ≡ true)
done_lem ms c e = let v = run-IsSound ms init init-IsSound in ground arith

gone-loop :
    (pc : LoopPc) (i : Input) (s : System) → s.control ≡ gone → (loop_at pc i s).control ≡ gone
unfolding loop_at
gone-loop away i s e = ground arith
gone-loop pc i s e = ground arith

gone-control :
    (pc : ControlPc) (spurious : Bool) (now : ℕ) (s : System)
    → s.control ≡ pc
    → pc ≡ gone
    → (control_at pc spurious now s).control ≡ gone
unfolding control_at
gone-control gone spurious now s e f = e
gone-control _ spurious now s e f = cc

gone-step : (m : Move) (s : System) → s.control ≡ gone → (step m s).control ≡ gone
unfolding step loop_step control_step
gone-step (loops i) s e = gone-loop s.loop i s e
gone-step (controls spurious now) s e = gone-control s.control spurious now s refl e
gone-step (begins c) s e = ground arith
gone-step (sets_handler b) s e = e
gone-step (sets_interval n) s e = e
gone-step (sets_repeat b) s e = e

gone-run : (ms : List Move) (s : System) → s.control ≡ gone → (run ms s).control ≡ gone
unfolding run
gone-run [] s e = e
gone-run (m ∷ ms) s e = gone-run ms (step m s) (gone-step m s e)

-- Once the destructor has returned the handler never runs again, whatever follows: the timer stays
-- stopped and off the list, and the loop thread away from it but for a last broadcast.
pub gone_lem :
    (ms later : List Move)
    → (run ms init).control ≡ gone
    → let s = run later (run ms init) in
      (s.state ≡ stopped) × (s.listed ≡ false) × (has_left s.loop ≡ true)
gone_lem ms later e =
    let v = run-IsSound later (run ms init) (run-IsSound ms init init-IsSound) in
    ground (arith, gone-run later (run ms init) e)

-- How many accesses the loop thread is from the end of the execution, on the longest way.
abbrev pub rank : LoopPc → ℕ
rank (taking true) = 14
rank calling = 13
rank (called keep) = 12
rank (checking kept interval) = 11
rank (renewing interval) = 10
rank pending = 9
rank announcing = 8
rank requeue_start = 7
rank requeue_check = 6
rank inserting = 5
rank inserted = 4
rank unlisting = 3
rank finishing = 2
rank _ = 0

-- The execution is over and the timer is stopped.
abbrev pub HasStopped : System → Type 0
HasStopped s = (s.loop ≡ waking) × (s.state ≡ stopped) × (s.listed ≡ false)

IsDoomed-step :
    (pc : LoopPc) (i : Input) (s : System)
    → s.loop ≡ pc
    → IsSound s
    → s.stop_requested ≡ true
    → 2 ≤ rank pc
    → let t = loop_at pc i s in
      HasStopped t ⊎ ((t.stop_requested ≡ true) × (2 ≤ rank t.loop) × (rank t.loop < rank pc))
unfolding loop_at
IsDoomed-step away i s e v r h = absurd (omega arith)
IsDoomed-step (taking true) i s e v r h = ground arith
IsDoomed-step pc i s e v r h = ground arith

busy-not_left : (pc : LoopPc) → 2 ≤ rank pc → has_left pc ≡ true → ⊥
busy-not_left away h e = omega arith
busy-not_left pc h e = ground arith

-- A stop is requested of a timer that executes.
abbrev IsDoomed : System → Type 0
IsDoomed s = (s.stop_requested ≡ true) × (2 ≤ rank s.loop)

-- The other thread does not take the request back: `start` clears the flag only once the loop has let
-- go of the timer.
IsDoomed-control :
    (pc : ControlPc) (spurious : Bool) (now : ℕ) (s : System)
    → s.control ≡ pc
    → IsSound s
    → IsDoomed s
    → IsDoomed (control_at pc spurious now s) × ((control_at pc spurious now s).loop ≡ s.loop)
unfolding control_at
IsDoomed-control free spurious now s e v d = ground arith
IsDoomed-control clearing spurious now s e v d = absurd (busy-not_left s.loop d.1 (ground arith))
IsDoomed-control pc spurious now s e v d = ground arith

IsDoomed-begin :
    (pc : ControlPc) (c : Call) (s : System)
    → IsDoomed s
    → IsDoomed (begin_at pc c s) × ((begin_at pc c s).loop ≡ s.loop)
unfolding begin_at
IsDoomed-begin free c s d = ground arith
IsDoomed-begin pc c s d = (d, refl)

abbrev count_loops : List Move → ℕ
count_loops [] = 0
count_loops (loops i ∷ ms) = suc (count_loops ms)
count_loops (_ ∷ ms) = count_loops ms

-- Either the move ends the execution with the timer stopped, or the request stands and an access of
-- the loop thread brings the end nearer.
IsDoomed-move :
    (m : Move) (ms : List Move) (s : System)
    → IsSound s
    → IsDoomed s
    → rank s.loop ≤ count_loops (m ∷ ms)
    → HasStopped (step m s) ⊎ (IsDoomed (step m s) × (rank (step m s).loop ≤ count_loops ms))
unfolding step loop_step control_step
IsDoomed-move (loops i) ms s v d few = ground (arith, IsDoomed-step s.loop i s refl v d.0 d.1)
IsDoomed-move (controls spurious now) ms s v d few =
    let (d', same) = IsDoomed-control s.control spurious now s refl v d in
    inr (d', subst (λ pc. rank pc ≤ count_loops ms) (sym same) few)
IsDoomed-move (begins c) ms s v d few =
    let (r, same) = IsDoomed-begin s.control c s d in
    inr (r, subst (λ pc. rank pc ≤ count_loops ms) (sym same) few)
IsDoomed-move (sets_handler b) ms s v d few = inr (d, few)
IsDoomed-move (sets_interval n) ms s v d few = inr (d, few)
IsDoomed-move (sets_repeat b) ms s v d few = inr (d, few)

-- A stop whose request stands while the timer executes, at any place from the clearing of the flag
-- up to the last test of it in requeueFromLoop, or on the way to the store of Stopped, is honoured:
-- whatever the callback returns and the other thread does meanwhile, within fourteen accesses of the
-- loop thread the execution is over, and the timer is stopped and off the list. A request after that
-- last test is not meant.
pub requested_stop :
    (ms : List Move) (s : System)
    → IsSound s
    → s.stop_requested ≡ true
    → 2 ≤ rank s.loop
    → rank s.loop ≤ count_loops ms
    → (early later : List Move) × (ms ≡ early ++ later) × HasStopped (run early s)
unfolding run
requested_stop [] s v r h few = absurd (omega arith)
requested_stop (m ∷ ms) s v r h few =
    go (IsDoomed-move m ms s v (r, h) few) (requested_stop ms (step m s) (step-IsSound m s v))
  where
    go :
        HasStopped (step m s) ⊎ (IsDoomed (step m s) × (rank (step m s).loop ≤ count_loops ms))
        → ((step m s).stop_requested ≡ true
            → 2 ≤ rank (step m s).loop
            → rank (step m s).loop ≤ count_loops ms
            → (early later : List Move) × (ms ≡ early ++ later) × HasStopped (run early (step m s)))
        → (early later : List Move) × (m ∷ ms ≡ early ++ later) × HasStopped (run early s)
    go (inl over) rec = (m ∷ [], ms, refl, over)
    go (inr (d, left)) rec =
        let (early, later, split, over) = rec d.0 d.1 left in
        (m ∷ early, later, ap (◌∷◌ m) split, over)
