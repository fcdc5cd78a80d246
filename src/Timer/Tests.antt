-- ===== src/Timer/Tests.antt =====
-- Schedules of the two threads, and the laws at them.
use c_wrapper.Prelude.{◌≡◌, refl, arith, true, false, List, [], ◌∷◌, ◌++◌, replicate}
use c_wrapper.Timer.{
  stopped, queued, executing, stop, destroy, start, LoopPc, begun, taking, calling, requeuing,
  finishing, waking, ControlPc, free, flagging, testing, dozing, done, gone, System, init, Input,
  Move, loops, controls, begins, sets_handler, run, step, loop_step, loop_at, seen, returned,
  control_step, control_at, begin_at, make_expiry,
}
use c_wrapper.Timer.Invariant.{
  IsSound, init-IsSound, step-IsSound, run-IsSound, has_left, expiry-step,
}
use c_wrapper.Timer.Stop.{done_lem, gone_lem, requested_stop, HasStopped}
use c_wrapper.Timer.Races.{
  stop_lost_at_start, stop_lost_at_end, destroyed_too_early, wakeup_lost, IsStranded,
}

abbrev input : Input
input = record { due = true; answer = true; now = 500 }

abbrev c : Move
c = controls false 400

abbrev l : Move
l = loops input

-- `start(100, true)` with a handler, up to its return.
abbrev started : List Move
started = sets_handler true ∷ begins (start 100 true) ∷ replicate 6 c ++ c ∷ []

-- The loop then begins to execute, and `stop` is called meanwhile.
abbrev executes : List Move
executes = started ++ replicate 4 l

-- The destructor waits for the execution to end.
abbrev destroyed : List Move
destroyed = executes ++ begins destroy ∷ replicate 4 c ++ replicate 6 l ++ replicate 2 c

is_started : ((run started init).state ≡ queued) × ((run started init).expiry ≡ 500)
unfolding run step control_step control_at begin_at seen returned make_expiry
is_started = (refl, refl)

is_destroyed : (run destroyed init).control ≡ done destroy
unfolding run step control_step control_at begin_at seen returned loop_step loop_at
is_destroyed = refl

is_gone : (run (destroyed ++ c ∷ []) init).control ≡ gone
unfolding run step control_step control_at begin_at seen returned loop_step loop_at
is_gone = refl

repeats :
    ((run (started ++ replicate 15 l) init).state ≡ queued)
    × ((run (started ++ replicate 15 l) init).expiry ≡ 600)
unfolding run step control_step control_at begin_at seen returned loop_step loop_at make_expiry
repeats = (refl, refl)

step-IsSound_example : IsSound (step l (run executes init))
step-IsSound_example = step-IsSound l (run executes init) (run-IsSound executes init init-IsSound)

expiry-step_test : (step l (run started init)).expiry ≡ (run started init).expiry
unfolding run step control_step control_at begin_at seen returned
expiry-step_test = expiry-step started l refl

done_lem_example :
    ((run destroyed init).state ≡ stopped)
    × ((run destroyed init).listed ≡ false)
    × (has_left (run destroyed init).loop ≡ true)
done_lem_example = done_lem destroyed destroy is_destroyed

gone_lem_example :
    ((run (l ∷ l ∷ []) (run (destroyed ++ c ∷ []) init)).state ≡ stopped)
    × ((run (l ∷ l ∷ []) (run (destroyed ++ c ∷ []) init)).listed ≡ false)
    × (has_left (run (l ∷ l ∷ []) (run (destroyed ++ c ∷ []) init)).loop ≡ true)
gone_lem_example = gone_lem (destroyed ++ c ∷ []) (l ∷ l ∷ []) is_gone

-- A queued timer whose execution has been asked to stop
abbrev asked : System
asked = record init {
  state = executing;
  stop_requested = true;
  handler = true;
  interval = 100;
  repeat = true;
  loop = calling;
}

requested_stop_example :
    (early later : List Move) × (replicate 14 l ≡ early ++ later) × HasStopped (run early asked)
requested_stop_example =
    requested_stop (replicate 14 l) asked (record { loop_ok = refl; control_ok = refl }) refl
      (omega arith) (omega arith)

abbrev starting : System
starting = record init { control = done (start 100 true) }

abbrev asked_at : LoopPc → ControlPc → System
asked_at pc k = record asked { loop = pc; control = k; listed = true }

stop_lost_at_start_test :
    let t = run (c ∷ l ∷ []) (asked_at begun (flagging stop)) in
    (t.control ≡ free) × (t.loop ≡ taking true) × (t.stop_requested ≡ false)
stop_lost_at_start_test =
    stop_lost_at_start input false 400 (asked_at begun (flagging stop)) refl refl

stop_lost_at_end_test :
    let t = run (c ∷ l ∷ []) (asked_at requeuing (flagging stop)) in
    (t.control ≡ free) × (t.state ≡ queued) × (t.listed ≡ true)
stop_lost_at_end_test =
    stop_lost_at_end input false 400 (asked_at requeuing (flagging stop)) refl refl refl

destroyed_too_early_test :
    let t =
      run
        (l ∷ controls false 0 ∷ controls false 0 ∷ controls false 0 ∷ [])
        (record asked { loop = finishing; control = testing destroy }) in
    (t.control ≡ gone) × (t.loop ≡ waking)
destroyed_too_early_test =
    destroyed_too_early input (record asked { loop = finishing; control = testing destroy }) refl
      refl

wakeup_lost_example : IsStranded (
    run (l ∷ c ∷ []) (
      run
        (l ∷ l ∷ controls false 0 ∷ [])
        (record asked { loop = finishing; control = dozing destroy })))
wakeup_lost_example =
    wakeup_lost input input destroy (record asked { loop = finishing; control = dozing destroy })
      (l ∷ c ∷ []) refl refl refl (refl, (refl, tt))
