-- ===== src/MainLoop/Once.antt =====
-- `loopOnce` of common/MainLoop.cpp, put together: the posted functions, the timers, and the events.
pub mod Served
pub mod Rounds
mod Tests
use c_wrapper.Prelude.{
  ℕ, Bool, true, false, Option, none, some, List, [], ◌∷◌, ◌||◌, not, if◌then◌else◌,
}
use c_wrapper.CircularQueue.{CircularQueue}
use c_wrapper.FixedFunction
use c_wrapper.MainLoop.Functions.{Outcome, preceded, post_all, run_functions}
use c_wrapper.MainLoop.Timers.{Setup, Timers, Turn, run_round}
use c_wrapper.MainLoop.Dispatch.{Call, WaitResult, after_wait}

-- `while (runFunctions())`, given what is posted during each of the calls; the outcome of all of them,
-- with what the last call has returned.
pub run_all : CircularQueue FixedFunction.FixedFunction → List (List (List ℕ)) → Option Outcome
run_all q [] = none
run_all q (posts ∷ more) = elim (run_functions q posts) [
  | none ↦ none
  | some o ↦ if o.executed_any then preceded o.events o.taken (run_all o.queue more) else some o
]

-- `mFunctions`, and the timers with their list.
pub record LoopState : Type 0 where
  pub queue : CircularQueue FixedFunction.FixedFunction
  pub timers : Timers

-- What one call of `loopOnce` meets: what is posted during the calls of `runFunctions`, the turns of
-- the loop on `runTimers`, what is posted from then on, by timers, other threads or watchers, up to
-- the return, and what `epoll_wait` answers.
pub record Round : Type 0 where
  pub posts : List (List (List ℕ))
  pub turns : List Turn
  pub late : List ℕ
  pub answer : WaitResult

-- What it returns and leaves, what the last call of `runFunctions` has returned, what was done with
-- the posted functions, which of them were taken in by then and which later, the timers that were
-- executed, and the calls of watchers.
pub record Report : Type 0 where
  pub returns : Bool
  pub state : LoopState
  pub executed_any : Bool
  pub events : List FixedFunction.Event
  pub taken : List ℕ
  pub waiting : List ℕ
  pub ran : List ℕ
  pub calls : List Call

-- `loopOnce`, where `mEpollFd` and `mPipe[0]` are valid or not; none where it does not return.
pub loop_once :
    (setup : ℕ → Setup) → (has_epoll : Bool) → (has_pipe : Bool) → LoopState → Round → Option Report
unfolding run_all
loop_once setup has_epoll has_pipe s r =
    if not has_epoll || not has_pipe
    then some (record {
      returns = false;
      state = s;
      executed_any = false;
      events = [];
      taken = [];
      waiting = [];
      ran = [];
      calls = [];
    })
    else elim (run_all s.queue r.posts) [
      | none ↦ none
      | some o ↦ elim (run_round setup s.timers r.turns) [
        | none ↦ none
        | some (timers, wait, ran) ↦ elim (after_wait has_pipe r.answer) [
          | none ↦ none
          | some (returns, calls) ↦ some (record {
            returns = returns;
            state = record { queue = (post_all o.queue r.late).0; timers = timers };
            executed_any = o.executed_any;
            events = o.events;
            taken = o.taken;
            waiting = (post_all o.queue r.late).1;
            ran = ran;
            calls = calls;
          })
        ]
      ]
    ]

-- A round of `loop` before the others.
abbrev pub with_report :
    Report → Option (LoopState × List Report) → Option (LoopState × List Report)
with_report r none = none
with_report r (some (s, rs)) = some (s, r ∷ rs)

-- `loop`, given what each round meets: the state that it leaves, and what the rounds have done; none
-- while it goes on.
pub loop :
    (setup : ℕ → Setup)
    → (has_epoll : Bool) → (has_pipe : Bool) → LoopState
    → List Round
    → Option (LoopState × List Report)
loop setup has_epoll has_pipe s [] = none
loop setup has_epoll has_pipe s (r ∷ rs) = elim (loop_once setup has_epoll has_pipe s r) [
  | none ↦ none
  | some report ↦
      if report.returns
      then with_report report (loop setup has_epoll has_pipe report.state rs)
      else some (report.state, report ∷ [])
]
