-- ===== src/AsyncThread/Invariant.antt =====
-- How the places of the two threads of an AsyncThread go together with those of its engine.
use c_wrapper.Prelude.{◌≡◌, ◌≢◌, ◌∙◌, refl, arith, Bool, true, false, List, [], ◌∷◌, ◌&&◌, not}
use c_wrapper.Worker.{
  start, stop, free, started, TaskPc, working, sleeping, System, should_run, returns,
}
use c_wrapper.Worker as Engine
use c_wrapper.Worker.Invariant as Sound
use c_wrapper.Worker.Owner.{
  is_gone, is_free, task_step-works, task_step-sleeps, task_step-enters, is_in_stop, is_in_start,
  join_fails, control_step-is_in_stop, control_step-is_in_start, control_step-task,
  task_step-control, task_step-is_gone, begin_stop, begin_start, free-step, own_step-requesters,
  init_lem, return_lem,
}
use c_wrapper.AsyncThread.{
  Async, HolderPc, Body, outside, calling, finished, cleared, closed, launched, assigning,
  launching, dropping, over, init, step, run, holder_at, launched_at, engine_at, task_at, body_at,
  begin_at, enters, Call, Move, controls, tasks, holds, begins, checking, clearing, closing,
}

abbrev pub is_outside : Body → Bool
is_outside outside = true
is_outside _ = false

abbrev pub is_calling : Body → Bool
is_calling (calling f) = true
is_calling _ = false

-- Where the worker thread is in `run`, for where the engine has it.
abbrev pub is_within : TaskPc → Body → Bool
is_within working b = not (is_outside b)
is_within sleeping b = is_calling b
is_within _ b = is_outside b

-- Where the holder is, for where the engine has it.
abbrev pub serves : HolderPc → System → Bool
serves (cleared f) e = is_in_stop e.control e.task
serves (closed last) e = is_in_stop e.control e.task
serves launched e = is_in_start e.control
serves (assigning f) e = is_free e.control && is_gone e.task
serves launching e = is_free e.control && is_gone e.task
serves dropping e = is_free e.control && is_gone e.task
serves over e = is_free e.control && is_gone e.task
serves _ e = is_free e.control

pub record IsSound (s : Async) : Type 0 where
  pub engine_ok : Sound.IsSound s.engine
  pub within : is_within s.engine.task s.body ≡ true
  pub alone : s.engine.requesters ≡ 0
  pub serving : serves s.holder s.engine ≡ true

pub init-IsSound : IsSound init
unfolding init
init-IsSound =
    let at = init_lem in
    record {
      engine_ok = Sound.init-IsSound;
      alone = ground arith;
      within = ground arith;
      serving = ground arith;
    }

-- No call of `pthread_join` fails at this access.
abbrev pub joins : Move → Async → Bool
joins (controls ok) s = not (join_fails s.engine.control ok)
joins _ s = true

launched_at-IsSound :
    (pc : Engine.ControlPc) (s : Async)
    → s.engine.control ≡ pc
    → s.holder ≡ launched
    → IsSound s
    → IsSound (launched_at pc s)
unfolding launched_at
launched_at-IsSound (started b) s e at v =
    let back = return_lem b true s.engine e in
    record {
      engine_ok = Sound.step-IsSound (Engine.controls true) s.engine v.engine_ok;
      alone = own_step-requesters (Engine.controls true) s.engine refl ∙ v.alone;
      within = ground arith;
      serving = ground arith;
    }
launched_at-IsSound pc s e at v = v

holder_at-IsSound :
    (pc : HolderPc) (s : Async) → s.holder ≡ pc → IsSound s → IsSound (holder_at pc s)
unfolding holder_at
holder_at-IsSound (checking f) s at v = ground arith
holder_at-IsSound (clearing f) s at v =
    let begun = begin_stop s.engine in
    record {
      engine_ok = Sound.step-IsSound (Engine.begins stop) s.engine v.engine_ok;
      alone = own_step-requesters (Engine.begins stop) s.engine refl ∙ v.alone;
      within = ground arith;
      serving = ground arith;
    }
holder_at-IsSound (closing f) s at v =
    let begun = begin_stop s.engine in
    record {
      engine_ok = Sound.step-IsSound (Engine.begins stop) s.engine v.engine_ok;
      alone = own_step-requesters (Engine.begins stop) s.engine refl ∙ v.alone;
      within = ground arith;
      serving = ground arith;
    }
holder_at-IsSound launching s at v =
    let begun = begin_start s.engine in
    record {
      engine_ok = Sound.step-IsSound (Engine.begins start) s.engine v.engine_ok;
      alone = own_step-requesters (Engine.begins start) s.engine refl ∙ v.alone;
      within = ground arith;
      serving = ground arith;
    }
holder_at-IsSound launched s at v = launched_at-IsSound s.engine.control s refl at v
holder_at-IsSound pc s at v = ground arith

engine_step-serves :
    (pc : HolderPc) (e : Engine.Event) (s : System)
    → serves pc s ≡ true
    → serves pc (Engine.step (Engine.tasks e) s) ≡ true
engine_step-serves pc e s h =
    let kept = task_step-control e s in let gone = task_step-is_gone e s in ground arith

body_at-IsSound :
    (b : Body) (e : Engine.Event) (s : Async)
    → s.body ≡ b
    → IsSound s
    → s.engine.task ≡ working
    → IsSound (body_at b e s)
unfolding body_at
body_at-IsSound (calling f) e s at v w =
    let works = task_step-works e s.engine w in
    let held = engine_step-serves s.holder e s.engine v.serving in
    let quiet = own_step-requesters (Engine.tasks e) s.engine refl ∙ v.alone in
    let kept = Sound.step-IsSound (Engine.tasks e) s.engine v.engine_ok in ground arith
body_at-IsSound finished e s at v w =
    let works = task_step-works returns s.engine w in
    let held = engine_step-serves s.holder returns s.engine v.serving in
    record {
      engine_ok = Sound.step-IsSound (Engine.tasks returns) s.engine v.engine_ok;
      alone = own_step-requesters (Engine.tasks returns) s.engine refl ∙ v.alone;
      within = ground arith;
      serving = held;
    }
body_at-IsSound b e s at v w = ground arith

task_at-IsSound :
    (pc : TaskPc) (e : Engine.Event) (s : Async)
    → s.engine.task ≡ pc
    → IsSound s
    → IsSound (task_at pc e s)
unfolding task_at enters
task_at-IsSound working e s at v = body_at-IsSound s.body e s refl v at
task_at-IsSound sleeping e s at v =
    let sleeps = task_step-sleeps e s.engine at in
    record {
      engine_ok = Sound.step-IsSound (Engine.tasks e) s.engine v.engine_ok;
      alone = own_step-requesters (Engine.tasks e) s.engine refl ∙ v.alone;
      within = ground arith;
      serving = engine_step-serves s.holder e s.engine v.serving;
    }
task_at-IsSound pc e s at v =
    let begins = task_step-enters e s.engine (ground arith) in
    record {
      engine_ok = Sound.step-IsSound (Engine.tasks e) s.engine v.engine_ok;
      alone = own_step-requesters (Engine.tasks e) s.engine refl ∙ v.alone;
      within = ground arith;
      serving = engine_step-serves s.holder e s.engine v.serving;
    }

controls_serves :
    (pc : HolderPc) (ok : Bool) (e : System)
    → Sound.IsSound e
    → join_fails e.control ok ≡ false
    → ((b : Bool) → e.control ≢ started b)
    → serves pc e ≡ true
    → serves pc (Engine.step (Engine.controls ok) e) ≡ true
controls_serves (cleared f) ok e v j n h = control_step-is_in_stop e.control ok e refl v j h
controls_serves (closed last) ok e v j n h = control_step-is_in_stop e.control ok e refl v j h
controls_serves launched ok e v j n h = control_step-is_in_start e.control ok e refl h n
controls_serves pc ok e v j n h = let same = free-step ok e (ground arith) in ground arith

engine_at-IsSound :
    (pc : Engine.ControlPc) (ok : Bool) (s : Async)
    → s.engine.control ≡ pc
    → join_fails pc ok ≡ false
    → IsSound s
    → IsSound (engine_at pc ok s)
unfolding engine_at
engine_at-IsSound (started b) ok s at j v = v
engine_at-IsSound pc ok s at j v =
    let same = control_step-task pc ok s.engine at v.engine_ok in
    record {
      engine_ok = Sound.step-IsSound (Engine.controls ok) s.engine v.engine_ok;
      alone = own_step-requesters (Engine.controls ok) s.engine refl ∙ v.alone;
      within = ground arith;
      serving =
          controls_serves s.holder ok s.engine v.engine_ok (ground arith) (λ b. ground arith)
            v.serving;
    }

begin_at-IsSound :
    (pc : HolderPc) (c : Call) (s : Async) → s.holder ≡ pc → IsSound s → IsSound (begin_at pc c s)
unfolding begin_at
begin_at-IsSound pc c s at v = ground arith

pub step-IsSound : (m : Move) (s : Async) → joins m s ≡ true → IsSound s → IsSound (step m s)
unfolding step
step-IsSound (begins c) s j v = begin_at-IsSound s.holder c s refl v
step-IsSound holds s j v = holder_at-IsSound s.holder s refl v
step-IsSound (controls ok) s j v = engine_at-IsSound s.engine.control ok s refl (ground arith) v
step-IsSound (tasks e) s j v = task_at-IsSound s.engine.task e s refl v

-- No call of `pthread_join` fails in a run.
unfoldable pub all_join : List Move → Async → Bool
all_join [] s = true
all_join (m ∷ ms) s = joins m s && all_join ms (step m s)

-- In every run of accesses of the two threads in which pthread_join succeeds, the invariant holds.
pub run-IsSound :
    (ms : List Move) (s : Async) → all_join ms s ≡ true → IsSound s → IsSound (run ms s)
unfolding run all_join
run-IsSound [] s j v = v
run-IsSound (m ∷ ms) s j v =
    run-IsSound ms (step m s) (ground arith) (step-IsSound m s (ground arith) v)
