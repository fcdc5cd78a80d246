-- ===== src/AsyncThread/Ownership.antt =====
-- What becomes of the callables that an AsyncThread is given.
use c_wrapper.Prelude.{
  ℕ, ◌+◌, ◌≡◌, refl, arith, Bool, true, false, Option, none, List, [], ◌∷◌, ◌++◌, if◌then◌else◌,
  is_none, some, ◌⊎◌, inl, inr, Bool-cases,
}
use c_wrapper.Worker.{TaskPc, working}
use c_wrapper.Worker as Engine
use c_wrapper.FixedFunction.{FixedFunction, construct, invoke, reset, assign}
use c_wrapper.FixedFunction.Ownership.{
  is_valid, holds, made, ended, made-append, ended-append, reset_lem, assign_lem, construct_valid,
  construct_counts, invoke_counts,
}
use c_wrapper.AsyncThread.{
  Async, HolderPc, Body, testing, assigning, launched, dropping, over, init, step, run, store,
  holder_at, launched_at, engine_at, task_at, body_at, begin_at, Move, controls, tasks, begins,
}

abbrev pub is_over : HolderPc → Bool
is_over over = true
is_over _ = false

-- The account of a callable: it was constructed as often as it was destroyed or lives in the task,
-- whose pointers are set or not together; and nothing lives there once the object is gone.
record Owned (f : ℕ) (s : Async) : Type 0 where
  valid : is_valid s.task ≡ true
  account : holds f s.task.storage + ended f s.events ≡ made f s.events
  emptied : (if is_over s.holder then is_none s.task.storage else true) ≡ true

store-Owned :
    (f g : ℕ) (x : FixedFunction)
    → is_valid x ≡ true
    → let (x', events) = store g x in
      (is_valid x' ≡ true)
      × (holds f x'.storage + ended f events ≡ holds f x.storage + made f events)
unfolding store
store-Owned f g x v =
    let (made_it, events) = construct g in
    let (x', rest, es) = assign x made_it in
    let (xv, rv, none_made, got, left, gone) = assign_lem f x made_it v (construct_valid g) in
    (
      xv,
      omega (
        arith,
        made-append f (events ++ es) (reset rest).1,
        made-append f events es,
        ended-append f (events ++ es) (reset rest).1,
        ended-append f events es,
        got,
        left,
        gone,
        none_made,
        reset_lem f rest rest rv rv,
        construct_counts f g,
      ),
    )

launched_at-Owned :
    (f : ℕ) (pc : Engine.ControlPc) (s : Async)
    → s.holder ≡ launched
    → Owned f s
    → Owned f (launched_at pc s)
unfolding launched_at
launched_at-Owned f pc s at v = ground arith

holder_at-Owned :
    (f : ℕ) (pc : HolderPc) (s : Async) → s.holder ≡ pc → Owned f s → Owned f (holder_at pc s)
unfolding holder_at
holder_at-Owned f launched s at v = launched_at-Owned f s.engine.control s at v
holder_at-Owned f (assigning g) s at v =
    let (kept, account) = store-Owned f g s.task v.valid in
    record {
      valid = kept;
      account = omega (
        arith,
        v.account,
        account,
        made-append f s.events (store g s.task).1,
        ended-append f s.events (store g s.task).1,
      );
      emptied = refl;
    }
holder_at-Owned f dropping s at v =
    let (kept, gone, none_made, account) = reset_lem f s.task s.task v.valid v.valid in
    record {
      valid = kept;
      account = omega (
        arith,
        v.account,
        account,
        none_made,
        made-append f s.events (reset s.task).1,
        ended-append f s.events (reset s.task).1,
      );
      emptied = rw gone refl;
    }
holder_at-Owned f pc s at v = ground arith

body_at-Owned :
    (f : ℕ) (b : Body) (e : Engine.Event) (s : Async) → Owned f s → Owned f (body_at b e s)
unfolding body_at
body_at-Owned f testing e s v =
    let quiet = invoke_counts f s.task in
    ground (arith, made-append f s.events (invoke s.task), ended-append f s.events (invoke s.task))
body_at-Owned f b e s v = ground arith

task_at-Owned :
    (f : ℕ) (pc : TaskPc) (e : Engine.Event) (s : Async) → Owned f s → Owned f (task_at pc e s)
unfolding task_at
task_at-Owned f working e s v = body_at-Owned f s.body e s v
task_at-Owned f pc e s v = ground arith

step-Owned : (f : ℕ) (m : Move) (s : Async) → Owned f s → Owned f (step m s)
unfolding step begin_at engine_at
step-Owned f (begins c) s v = ground arith
step-Owned f Move.holds s v = holder_at-Owned f s.holder s refl v
step-Owned f (controls ok) s v = ground arith
step-Owned f (tasks e) s v = task_at-Owned f s.engine.task e s v

run-Owned : (f : ℕ) (ms : List Move) (s : Async) → Owned f s → Owned f (run ms s)
unfolding run
run-Owned f [] s v = v
run-Owned f (m ∷ ms) s v = run-Owned f ms (step m s) (step-Owned f m s v)

init-Owned : (f : ℕ) → Owned f init
unfolding init
init-Owned f = record { valid = refl; account = refl; emptied = refl }

empty-holds : (f : ℕ) (o : Option ℕ) → is_none o ≡ true → holds f o ≡ 0
empty-holds f none h = refl
empty-holds f (some g) h = ground arith

is_none_lem : (o : Option ℕ) → is_none o ≡ true → o ≡ none
is_none_lem none h = refl
is_none_lem (some f) h = ground arith

closed_account :
    (f : ℕ) (s : Async)
    → Owned f s
    → (is_over s.holder ≡ false) ⊎ (ended f s.events ≡ made f s.events)
closed_account f s v = elim (Bool-cases (is_over s.holder)) [
  | inr going ↦ inl going
  | inl gone ↦
      let none_held = empty-holds f s.task.storage (ground arith) in
      inr (omega (arith, none_held, v.account))
]

-- In every interleaving, each callable given to start was constructed in a task as often as it was
-- destroyed or is in mWorkerTask now; and once the object is gone, as often as it was destroyed.
pub owned_lem :
    (ms : List Move) (f : ℕ)
    → let s = run ms init in
      (holds f s.task.storage + ended f s.events ≡ made f s.events)
      × ((is_over s.holder ≡ false) ⊎ (ended f s.events ≡ made f s.events))
owned_lem ms f =
    let v = run-Owned f ms init (init-Owned f) in (v.account, closed_account f (run ms init) v)

-- Once the object is gone, nothing lives in mWorkerTask.
pub dropped_lem :
    (ms : List Move) → is_over (run ms init).holder ≡ true → (run ms init).task.storage ≡ none
dropped_lem ms h =
    let v = run-Owned 0 ms init (init-Owned 0) in
    is_none_lem (run ms init).task.storage (ground arith)
