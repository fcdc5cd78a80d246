-- ===== src/MainLoop/Once/Rounds.antt =====
-- `loop`: the rounds up to the one that ends it.
use c_wrapper.Prelude.{
  ℕ, ◌+◌, ◌*◌, ◌<◌, ◌≡◌, Bool, true, false, Option, some, List, [], ◌∷◌, ◌++◌, map, length, not,
  ◌&&◌,
}
use c_wrapper.FixedFunction.{Event, calls}
use c_wrapper.MainLoop.Functions.Held.{Holds}
use c_wrapper.TimerList.Order.{IsSorted, IsUnique}
use c_wrapper.MainLoop.Timers.{Setup}
use c_wrapper.MainLoop.Timers.Round.{IsSlow, IsPrompt}
use c_wrapper.MainLoop.Dispatch.{Call}
use c_wrapper.MainLoop.Dispatch.Calls.{Answers}
use c_wrapper.MainLoop.Once.{LoopState, Round, Report, loop_once}
use c_wrapper.MainLoop.Once.Served.{Served, quieted}

-- What a round meets: timers that are not fast and a prompt round of them, with turns enough; posts
-- that pause before the last two calls of runFunctions, and any posts after them; and an answer of
-- epoll_wait after which the loop goes on or not.
pub record IsQuiet (setup : ℕ → Setup) (s : LoopState) (r : Round) : Type 0 where
  pub start : ℕ
  pub limit : ℕ
  pub posts : List (List (List ℕ))
  pub goes_on : Bool
  pub watched : List Call
  pub slow : IsSlow setup start limit
  pub prompt : IsPrompt start limit r.turns
  pub enough : 2 * length s.timers.list + 1 < length r.turns
  pub posted : r.posts ≡ map quieted posts ++ quieted [] ∷ quieted [] ∷ []
  pub answered : Answers r.answer goes_on watched

-- The rounds are so, each in the state that the one before has left, up to one that ends the loop.
unfoldable pub AreQuiet : (setup : ℕ → Setup) → LoopState → List Round → Type 0
AreQuiet setup s [] = ⊥
AreQuiet setup s (r ∷ rs) =
    (ok : IsQuiet setup s r) × (ok.goes_on ≡ true
      → (report : Report) → loop_once setup true true s r ≡ some report
      → AreQuiet setup report.state rs)

abbrev pub all_events : List Report → List Event
all_events [] = []
all_events (r ∷ rs) = r.events ++ all_events rs

-- The functions that were taken in during the rounds.
abbrev pub all_taken : List Report → List ℕ
all_taken [] = []
all_taken (r ∷ rs) = r.taken ++ (r.waiting ++ all_taken rs)

-- What the last round has taken in too late.
abbrev pub waiting_last : List Report → List ℕ
waiting_last [] = []
waiting_last (r ∷ []) = r.waiting
waiting_last (r ∷ rs) = waiting_last rs

-- All rounds but the last go on.
abbrev pub ends_last : List Report → Bool
ends_last [] = false
ends_last (r ∷ []) = not r.returns
ends_last (r ∷ rs) = r.returns && ends_last rs

-- The loop has returned. The functions of the queue and those taken in were called once each and in
-- order, up to those that are left, the ones posted in the last round too late to be called; they
-- are in the queue.
pub record Looped (fs : List ℕ) (o : Option (LoopState × List Report)) : Type 0 where
  pub state : LoopState
  pub reports : List Report
  pub left : List ℕ
  pub returned : o ≡ some (state, reports)
  pub in_order : all_events reports ++ map calls left ≡ map calls (fs ++ all_taken reports)
  pub queued : Holds state.queue left
  pub last : waiting_last reports ≡ left
  pub sorted : IsSorted state.timers.expiry state.timers.list
  pub unique : IsUnique state.timers.list
  pub ends : ends_last reports ≡ true
