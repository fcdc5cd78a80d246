-- ===== src/MainLoop/Once/Served.antt =====
-- What one call of `loopOnce` has served when it returns.
use mathlib.Core.List.{append_assoc}
use c_wrapper.Prelude.{
  ℕ, suc, ◌+◌, ◌*◌, ◌<◌, ◌≡◌, refl, Bool, true, false, Option, some, List, [], ◌∷◌, ◌++◌,
  if◌then◌else◌, ◌||◌, not, replicate, map, length, take, ap, ap₂, ◌∙◌, Bool-cases, inl, inr,
}
use c_wrapper.CircularQueue.{CircularQueue}
use c_wrapper.FixedFunction.{FixedFunction, calls}
use c_wrapper.TimerList.Order.{IsSorted, IsUnique}
use c_wrapper.MainLoop.Wakeup.{max_functions}
use c_wrapper.MainLoop.Functions.{Outcome, preceded, post_all, run_functions}
use c_wrapper.MainLoop.Functions.Held.{Holds, post_all-Holds, post_all-taken}
use c_wrapper.MainLoop.Functions.Order.{Done, nothing_posted, run_functions_lem}
use c_wrapper.MainLoop.Timers.{Setup, Timers, Turn, run_round}
use c_wrapper.MainLoop.Timers.Counts.{Counts}
use c_wrapper.MainLoop.Timers.Round.{IsSlow, IsPrompt, run_round_lem}
use c_wrapper.MainLoop.Dispatch.{Call, WaitResult, after_wait}
use c_wrapper.MainLoop.Dispatch.Calls.{Answers, after_wait-Answers}
use c_wrapper.MainLoop.Once.{run_all, LoopState, Round, Report, loop_once}

-- What is posted during a call of `runFunctions`, and then nothing until it has returned.
abbrev pub quieted : List (List ℕ) → List (List ℕ)
quieted posts = posts ++ replicate (suc max_functions) []

-- The calls of `runFunctions` end, the last of them with nothing to call, and have called the
-- functions once each and in order.
pub record AllDone (fs : List ℕ) (r : Option Outcome) : Type 0 where
  pub outcome : Outcome
  pub returned : r ≡ some outcome
  pub in_order : outcome.events ≡ map calls (fs ++ outcome.taken)
  pub at_rest : outcome.executed_any ≡ false
  pub emptied : Holds outcome.queue []

map-calls-append : (xs ys : List ℕ) → map calls xs ++ map calls ys ≡ map calls (xs ++ ys)
map-calls-append [] ys = refl
map-calls-append (x ∷ xs) ys = ap (λ es. calls x ∷ es) (map-calls-append xs ys)

run_all-call :
    (q : CircularQueue FixedFunction) (posts : List (List ℕ)) (more : List (List (List ℕ)))
    (o : Outcome)
    → run_functions q posts ≡ some o
    → run_all q (posts ∷ more)
      ≡ (if o.executed_any then preceded o.events o.taken (run_all o.queue more) else some o)
unfolding run_all
run_all-call q posts more o e = rw (e, run_all) refl

run_one :
    (q : CircularQueue FixedFunction) (fs : List ℕ) (posts : List (List ℕ))
    (more : List (List (List ℕ)))
    → Done false fs (run_functions q posts)
    → ((q' : CircularQueue FixedFunction) → Holds q' [] → AllDone [] (run_all q' more))
    → AllDone fs (run_all q (posts ∷ more))
run_one q fs posts more d next =
    rw (run_all-call q posts more d.outcome d.returned) (elim (Bool-cases d.outcome.executed_any) [
      | inl any ↦
          let e = next d.outcome.queue d.emptied in
          rw (any, e.returned)
            (record {
              outcome = record {
                queue = e.outcome.queue;
                executed_any = e.outcome.executed_any;
                events = d.outcome.events ++ e.outcome.events;
                taken = d.outcome.taken ++ e.outcome.taken;
              };
              returned = refl;
              in_order =
                  ap₂ ◌++◌ d.in_order e.in_order
                  ∙ map-calls-append (fs ++ d.outcome.taken) e.outcome.taken
                  ∙ ap (map calls) (append_assoc fs d.outcome.taken e.outcome.taken);
              at_rest = e.at_rest;
              emptied = e.emptied;
            })
      | inr idle ↦ rw idle (record {
        outcome = record d.outcome { executed_any = false };
        returned = refl;
        in_order = d.in_order;
        at_rest = refl;
        emptied = d.emptied;
      })
    ])

-- The last call finds nothing.
run_last : (q : CircularQueue FixedFunction) → Holds q [] → AllDone [] (run_all q (quieted [] ∷ []))
run_last q h =
    let (q', e, h') = nothing_posted max_functions q h in
    rw (run_all-call q (replicate (suc max_functions) []) [] _ e) (record {
      outcome = record { queue = q'; executed_any = false; events = []; taken = [] };
      returned = refl;
      in_order = refl;
      at_rest = refl;
      emptied = h';
    })

pub run_all_lem :
    (q : CircularQueue FixedFunction) (fs : List ℕ) (posts : List (List (List ℕ)))
    → Holds q fs
    → AllDone fs (run_all q (map quieted posts ++ quieted [] ∷ quieted [] ∷ []))
run_all_lem q fs [] h =
    run_one q fs (quieted []) (quieted [] ∷ []) (run_functions_lem q fs [] h) run_last
run_all_lem q fs (p ∷ posts) h =
    run_one q fs (quieted p) (map quieted posts ++ quieted [] ∷ quieted [] ∷ [])
      (run_functions_lem q fs p h) (λ q' h'. run_all_lem q' [] posts h')

-- The call returns, with this value and these calls of watchers, and has served the functions and
-- the timers: the last call of `runFunctions` found nothing, the functions of the queue and those
-- taken in by then have been called, and of those posted later the queue holds as many as there is
-- room for.
pub record Served (start limit : ℕ) (s : LoopState) (fs : List ℕ) (r : Round) (b : Bool)
    (cs : List Call) (o : Option Report) : Type 0 where
  pub report : Report
  pub returned : o ≡ some report
  pub value : report.returns ≡ b
  pub called : report.calls ≡ cs
  pub in_order : report.events ≡ map calls (fs ++ report.taken)
  pub at_rest : report.executed_any ≡ false
  pub left : report.waiting ≡ take max_functions r.late
  pub queued : Holds report.state.queue report.waiting
  pub sorted : IsSorted report.state.timers.expiry report.state.timers.list
  pub unique : IsUnique report.state.timers.list
  pub counts : Counts start limit s.timers report.ran

pub loop_once-parts :
    (setup : ℕ → Setup) (s : LoopState) (r : Round) (o : Outcome) (timers : Timers) (wait : ℕ)
    (ran : List ℕ) (b : Bool) (cs : List Call)
    → run_all s.queue r.posts ≡ some o
    → run_round setup s.timers r.turns ≡ some (timers, wait, ran)
    → after_wait true r.answer ≡ some (b, cs)
    → loop_once setup true true s r
      ≡ some (record {
        returns = b;
        state = record { queue = (post_all o.queue r.late).0; timers = timers };
        executed_any = o.executed_any;
        events = o.events;
        taken = o.taken;
        waiting = (post_all o.queue r.late).1;
        ran = ran;
        calls = cs;
      })
unfolding loop_once
loop_once-parts setup s r o timers wait ran b cs e f g = rw (e, f, g) refl

-- With its descriptors valid, the functions queued in order and the timers sorted and unique, under
-- the conditions of a round of the timers and where nothing is posted during the last two of the
-- calls of runFunctions, nor at the end of the others: loopOnce returns what the events ask for, and
-- has called the watchers that they name. It goes on to the timers only when a call of runFunctions
-- has found nothing; every function queued or taken in by then has been called once, in order. The
-- functions posted later, by timers, watchers or other threads, wait in the queue, in order and as
-- many as there is room for. The timers are executed as in a round and in order again.
pub loop_once_lem :
    (setup : ℕ → Setup) (start limit : ℕ) (q : CircularQueue FixedFunction) (fs : List ℕ)
    (expiry : ℕ → ℕ) (ts : List ℕ) (posts : List (List (List ℕ))) (ms : List Turn) (late : List ℕ)
    (w : WaitResult) (b : Bool) (cs : List Call)
    → Holds q fs
    → IsSlow setup start limit
    → IsPrompt start limit ms
    → IsSorted expiry ts
    → IsUnique ts
    → 2 * length ts + 1 < length ms
    → Answers w b cs
    → let s : LoopState = record { queue = q; timers = record { expiry = expiry; list = ts } } in
      let r : Round = record {
        posts = map quieted posts ++ quieted [] ∷ quieted [] ∷ [];
        turns = ms;
        late = late;
        answer = w;
      } in
      Served start limit s fs r b cs (loop_once setup true true s r)
loop_once_lem setup start limit q fs expiry ts posts ms late w b cs h slow prompt sorted unique
      enough answers =
    let f = run_all_lem q fs posts h in
    let t = run_round_lem setup start limit expiry ts ms slow prompt sorted unique enough in
    record {
      report = record {
        returns = b;
        state = record { queue = (post_all f.outcome.queue late).0; timers = t.state };
        executed_any = f.outcome.executed_any;
        events = f.outcome.events;
        taken = f.outcome.taken;
        waiting = (post_all f.outcome.queue late).1;
        ran = t.ran;
        calls = cs;
      };
      returned =
          loop_once-parts setup _ _ f.outcome t.state t.wait t.ran b cs f.returned t.returned
            (after_wait-Answers answers);
      value = refl;
      called = refl;
      in_order = f.in_order;
      at_rest = f.at_rest;
      left = post_all-taken late [] f.outcome.queue f.emptied;
      queued = post_all-Holds late [] f.outcome.queue f.emptied;
      sorted = t.sorted;
      unique = t.unique;
      counts = t.counts;
    }

-- Without an epoll instance or a pipe loopOnce returns false and does nothing.
pub loop_once-invalid :
    (setup : ℕ → Setup) (has_epoll has_pipe : Bool) (s : LoopState) (r : Round)
    → not has_epoll || not has_pipe ≡ true
    → loop_once setup has_epoll has_pipe s r
      ≡ some (record {
        returns = false;
        state = s;
        executed_any = false;
        events = [];
        taken = [];
        waiting = [];
        ran = [];
        calls = [];
      })
unfolding loop_once
loop_once-invalid setup has_epoll has_pipe s r h = rw h refl
