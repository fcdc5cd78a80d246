-- ===== src/Timer/Races.antt =====
-- Interleavings that the comments of Timer.h and Timer.cpp rule out, and the code does not.
use c_wrapper.Prelude.{ℕ, ◌≡◌, arith, Bool, true, false, List, [], ◌∷◌}
use c_wrapper.Timer.{
  stopped, queued, Call, stop, destroy, away, begun, taking, requeuing, finishing, waking, free,
  flagging, testing, dozing, asleep, gone, System, loop_step, loop_at, control_step, control_at,
  seen, returned, Move, loops, controls, begins, sets_handler, sets_interval, sets_repeat, step,
  run, Input, begin_at,
}

abbrev idle_input : Input
idle_input = record { due = false; answer = false; now = 0 }

-- `stop` may be lost at the start of an execution: when it sets the flag after the loop thread's
-- exchange and before the store that clears the flag, the call returns and no request is left.
pub stop_lost_at_start :
    (i : Input) (spurious : Bool) (now : ℕ) (s : System)
    → s.loop ≡ begun
    → s.control ≡ flagging stop
    → let t = run (controls spurious now ∷ loops i ∷ []) s in
      (t.control ≡ free) × (t.loop ≡ taking true) × (t.stop_requested ≡ false)
unfolding run step loop_step control_step loop_at control_at
stop_lost_at_start i spurious now s l c = ground arith

-- It may be lost at the end of one: when it sets the flag after the last test of the flag, the call
-- returns and the timer is queued again.
pub stop_lost_at_end :
    (i : Input) (spurious : Bool) (now : ℕ) (s : System)
    → s.loop ≡ requeuing
    → s.control ≡ flagging stop
    → s.listed ≡ true
    → let t = run (controls spurious now ∷ loops i ∷ []) s in
      (t.control ≡ free) × (t.state ≡ queued) × (t.listed ≡ true)
unfolding run step loop_step control_step loop_at control_at
stop_lost_at_end i spurious now s l c listed = ground arith

-- The destructor may return while the loop thread has yet to broadcast on the timer's condition
-- variable: from every state in which the loop is about to store `Stopped` and the destructor tests
-- its predicate.
pub destroyed_too_early :
    (i : Input) (s : System)
    → s.loop ≡ finishing
    → s.control ≡ testing destroy
    → let t = run (loops i ∷ controls false 0 ∷ controls false 0 ∷ controls false 0 ∷ []) s in
      (t.control ≡ gone) × (t.loop ≡ waking)
unfolding run step loop_step control_step loop_at control_at seen returned
destroyed_too_early i s l c = ground arith

abbrev is_spurious : Move → Bool
is_spurious (controls spurious now) = spurious
is_spurious _ = false

abbrev AreGenuine : List Move → Type 0
AreGenuine [] = Unit {0}
AreGenuine (m ∷ ms) = (is_spurious m ≡ false) × AreGenuine ms

-- A thread asleep on a stopped timer that no list holds, with the loop away from it.
abbrev pub IsStranded : System → Type 0
IsStranded s =
    (c : Call) × (s.control ≡ asleep c) × (s.loop ≡ away) × (s.listed ≡ false) × (s.state ≡ stopped)

IsStranded-step :
    (m : Move) (s : System) → is_spurious m ≡ false → IsStranded s → IsStranded (step m s)
unfolding step loop_step control_step loop_at control_at begin_at
IsStranded-step (loops i) s g (c, a, l, n, st) =
    (c, ground arith, ground arith, ground arith, ground arith)
IsStranded-step (controls spurious now) s g (c, a, l, n, st) =
    (c, ground arith, ground arith, ground arith, ground arith)
IsStranded-step (begins d) s g (c, a, l, n, st) =
    (c, ground arith, ground arith, ground arith, ground arith)
IsStranded-step (sets_handler b) s g h = h
IsStranded-step (sets_interval n) s g h = h
IsStranded-step (sets_repeat b) s g h = h

IsStranded-run :
    (ms : List Move) (s : System) → AreGenuine ms → IsStranded s → IsStranded (run ms s)
unfolding run
IsStranded-run [] s g h = h
IsStranded-run (m ∷ ms) s g h = IsStranded-run ms (step m s) g.1 (IsStranded-step m s g.0 h)

-- A wakeup may be lost: the loop thread stores the state and broadcasts without `mWaitLock`, so both
-- may fall between the test of the predicate and the sleep. From every such state `stopAndWait` then
-- sleeps for ever, whatever else happens, unless the wait ends for no reason.
pub wakeup_lost :
    (i j : Input) (c : Call) (s : System) (later : List Move)
    → s.loop ≡ finishing
    → s.listed ≡ false
    → s.control ≡ dozing c
    → AreGenuine later
    → IsStranded (run later (run (loops i ∷ loops j ∷ controls false 0 ∷ []) s))
unfolding run step loop_step control_step loop_at control_at
wakeup_lost i j c s later l n d g =
    IsStranded-run later _ g (c, ground arith, ground arith, ground arith, ground arith)
