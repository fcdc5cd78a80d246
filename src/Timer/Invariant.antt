-- ===== src/Timer/Invariant.antt =====
-- What the loop thread and the control thread may take for granted of the timer's state.
use c_wrapper.Prelude.{ℕ, ◌≡◌, refl, arith, Bool, true, false, List, [], ◌∷◌, ◌&&◌, not}
use c_wrapper.Timer.{
  TimerState, stopped, executing, Call, LoopPc, away, front, begun, taking, announcing,
  requeue_start, requeue_check, inserting, inserted, unlisting, requeuing, finishing, waking,
  ControlPc, free, won, removing, broadcasting, done, configuring, clearing, queueing, adding, gone,
  System, init, is_busy, is_queued, loop_step, loop_at, control_step, control_at, Move, loops,
  controls, begins, sets_handler, sets_interval, sets_repeat, step, run, Input, begin_at,
}

abbrev pub is_executing : TimerState → Bool
is_executing executing = true
is_executing _ = false

abbrev pub is_stopped : TimerState → Bool
is_stopped stopped = true
is_stopped _ = false

-- At each place of the loop thread, the state of the timer and whether the list holds it.
abbrev pub loop_fits : LoopPc → TimerState → Bool → Bool
loop_fits away st listed = not (is_busy st)
loop_fits waking st listed = not (is_busy st)
loop_fits front st listed = not (is_busy st) && listed
loop_fits begun st listed = is_executing st && listed
loop_fits (taking true) st listed = is_executing st && listed
loop_fits (taking false) st listed = is_stopped st && listed
loop_fits announcing st listed = not (is_executing st) && is_busy st && not listed
loop_fits requeue_start st listed = not (is_executing st) && is_busy st && not listed
loop_fits requeue_check st listed = not (is_executing st) && is_busy st && not listed
loop_fits inserting st listed = not (is_executing st) && is_busy st && not listed
loop_fits inserted st listed = not (is_executing st) && is_busy st && listed
loop_fits unlisting st listed = not (is_executing st) && is_busy st && listed
loop_fits requeuing st listed = not (is_executing st) && is_busy st && listed
loop_fits finishing st listed = is_busy st && not listed
loop_fits _ st listed = is_executing st && not listed

-- The loop thread has let go of the timer, but for a last broadcast.
abbrev pub has_left : LoopPc → Bool
has_left away = true
has_left waking = true
has_left _ = false

-- The timer is stopped, no list holds it and the loop has let it go.
abbrev pub is_quiet : TimerState → Bool → LoopPc → Bool
is_quiet st listed pc = is_stopped st && not listed && has_left pc

abbrev pub control_fits : ControlPc → TimerState → Bool → LoopPc → Bool
control_fits (won c) st listed pc = is_stopped st
control_fits (removing c) st listed pc = is_stopped st
control_fits (broadcasting c) st listed pc = is_quiet st listed pc
control_fits (done c) st listed pc = is_quiet st listed pc
control_fits (configuring msec repeat) st listed pc = is_quiet st listed pc
control_fits clearing st listed pc = is_quiet st listed pc
control_fits queueing st listed pc = is_quiet st listed pc
control_fits adding st listed pc = is_queued st && not listed && has_left pc
control_fits gone st listed pc = is_quiet st listed pc
control_fits _ st listed pc = not (is_stopped st && listed)

pub record IsSound (s : System) : Type 0 where
  pub loop_ok : loop_fits s.loop s.state s.listed ≡ true
  pub control_ok : control_fits s.control s.state s.listed s.loop ≡ true

pub init-IsSound : IsSound init
init-IsSound = record { loop_ok = refl; control_ok = refl }

-- Every access of the loop thread keeps the invariant.
loop_at-IsSound :
    (pc : LoopPc) (i : Input) (s : System) → s.loop ≡ pc → IsSound s → IsSound (loop_at pc i s)
unfolding loop_at
loop_at-IsSound away i s e v = ground arith
loop_at-IsSound (taking true) i s e v = ground arith
loop_at-IsSound pc i s e v = ground arith

control_at-IsSound :
    (pc : ControlPc) (spurious : Bool) (now : ℕ) (s : System)
    → s.control ≡ pc
    → IsSound s
    → IsSound (control_at pc spurious now s)
unfolding control_at
control_at-IsSound free spurious now s e v = ground arith
control_at-IsSound pc spurious now s e v = ground arith

begin_at-IsSound :
    (pc : ControlPc) (c : Call) (s : System)
    → s.control ≡ pc
    → IsSound s
    → IsSound (begin_at pc c s)
unfolding begin_at
begin_at-IsSound free c s e v = ground arith
begin_at-IsSound pc c s e v = v

-- Every move keeps the invariant: an access of either thread, a new call, a change of the settings.
pub step-IsSound : (m : Move) (s : System) → IsSound s → IsSound (step m s)
unfolding step loop_step control_step
step-IsSound (loops i) s v = loop_at-IsSound s.loop i s refl v
step-IsSound (controls spurious now) s v = control_at-IsSound s.control spurious now s refl v
step-IsSound (begins c) s v = begin_at-IsSound s.control c s refl v
step-IsSound (sets_handler b) s v = record { loop_ok = v.loop_ok; control_ok = v.control_ok }
step-IsSound (sets_interval n) s v = record { loop_ok = v.loop_ok; control_ok = v.control_ok }
step-IsSound (sets_repeat b) s v = record { loop_ok = v.loop_ok; control_ok = v.control_ok }

pub run-IsSound : (ms : List Move) (s : System) → IsSound s → IsSound (run ms s)
unfolding run
run-IsSound [] s v = v
run-IsSound (m ∷ ms) s v = run-IsSound ms (step m s) (step-IsSound m s v)

-- While the list holds the timer its expiry does not change, so the list stays in order.
expiry-loop :
    (pc : LoopPc) (i : Input) (s : System)
    → s.loop ≡ pc
    → IsSound s
    → s.listed ≡ true
    → (loop_at pc i s).expiry ≡ s.expiry
unfolding loop_at
expiry-loop away i s e v h = ground arith
expiry-loop pc i s e v h = ground arith

expiry-control :
    (pc : ControlPc) (spurious : Bool) (now : ℕ) (s : System)
    → s.control ≡ pc
    → IsSound s
    → s.listed ≡ true
    → (control_at pc spurious now s).expiry ≡ s.expiry
unfolding control_at
expiry-control free spurious now s e v h = ground arith
expiry-control pc spurious now s e v h = ground arith

expiry-begin : (pc : ControlPc) (c : Call) (s : System) → (begin_at pc c s).expiry ≡ s.expiry
unfolding begin_at
expiry-begin free c s = refl
expiry-begin pc c s = refl

-- In a reachable state no move changes `mExpiry` while the loop's list holds the timer: what the order
-- of the list rests on.
pub expiry-step :
    (ms : List Move) (m : Move)
    → let s = run ms init in s.listed ≡ true → (step m s).expiry ≡ s.expiry
unfolding step loop_step control_step
expiry-step ms (loops i) h =
    let s = run ms init in expiry-loop s.loop i s refl (run-IsSound ms init init-IsSound) h
expiry-step ms (controls spurious now) h =
    let s = run ms init in
    expiry-control s.control spurious now s refl (run-IsSound ms init init-IsSound) h
expiry-step ms (begins c) h = let s = run ms init in expiry-begin s.control c s
expiry-step ms (sets_handler b) h = refl
expiry-step ms (sets_interval n) h = refl
expiry-step ms (sets_repeat b) h = refl
