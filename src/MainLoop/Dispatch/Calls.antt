-- ===== src/MainLoop/Dispatch/Calls.antt =====
-- Which watchers are called, and when the loop ends.
use mathlib.Core.List.{append-nil}
use c_wrapper.Prelude.{
  ℕ, ap, ◌∙◌, sym, ◌≡◌, refl, Bool, true, false, Option, none, some, List, [], ◌∷◌, ◌++◌, ◌||◌, not,
  if◌then◌else◌,
}
use c_wrapper.MainLoop.Pipe.{ReadResult, drain}
use c_wrapper.MainLoop.Pipe.Drain.{goes_on, all_go_on, is_failed, has_terminate, drain_lem}
use c_wrapper.MainLoop.Dispatch.{
  Event, command, watched, Call, WaitResult, events, interrupted, failed, with_call, dispatch,
  after_wait,
}

-- The answers to the reads of an event: bytes and interruptions, and then one that ends them.
pub data Reads : List ReadResult → List ReadResult → ReadResult → Type 0 where
  reads :
      (rs : List ReadResult) (last : ReadResult) (rest : List ReadResult)
      → all_go_on rs ≡ true
      → goes_on last ≡ false
      → Reads (rs ++ last ∷ rest) rs last

-- The handling goes on after the event.
pub data Continues : Event → Type 0 where
  quiet :
      {answers rs : List ReadResult} {last : ReadResult}
      → Reads answers rs last
      → is_failed last ≡ false
      → has_terminate rs ≡ false
      → Continues (command answers false)
  any_watcher :
      {w : ℕ} {fd : Option ℕ} {error readable : Bool} → Continues (watched w fd error readable)

-- The handling ends with the event, and `loopOnce` returns the value.
pub data Stops : Event → Bool → Type 0 where
  broken :
      {answers rs : List ReadResult} {last : ReadResult} {flag : Bool}
      → Reads answers rs last
      → is_failed last ≡ true
      → Stops (command answers flag) true
  ends :
      {answers rs : List ReadResult} {last : ReadResult} {flag : Bool}
      → Reads answers rs last
      → is_failed last ≡ false
      → has_terminate rs || flag ≡ true
      → Stops (command answers flag) false

abbrev pub AllContinue : List Event → Type 0
AllContinue [] = Unit {0}
AllContinue (e ∷ es) = Continues e × AllContinue es

-- The watchers that can be read, with a valid descriptor.
abbrev pub calls_of : List Event → List Call
calls_of [] = []
calls_of (command answers flag ∷ es) = calls_of es
calls_of (watched w none error readable ∷ es) = calls_of es
calls_of (watched w (some fd) error readable ∷ es) =
    if readable then record { watcher = w; fd = fd } ∷ calls_of es else calls_of es

pub drain-Reads :
    {answers rs : List ReadResult} {last : ReadResult}
    → Reads answers rs last
    → drain true answers ≡ some (not (is_failed last), has_terminate rs)
drain-Reads (reads rs last rest h k) = drain_lem rs last rest h k

abbrev pub with_calls : List Call → Option (Bool × List Call) → Option (Bool × List Call)
with_calls cs none = none
with_calls cs (some (b, ds)) = some (b, cs ++ ds)

with_no_calls : (r : Option (Bool × List Call)) → r ≡ with_calls [] r
with_no_calls none = refl
with_no_calls (some (b, cs)) = refl

with_call-with_calls :
    (c : Call) (cs : List Call) (r : Option (Bool × List Call))
    → with_call c (with_calls cs r) ≡ with_calls (c ∷ cs) r
with_call-with_calls c cs none = refl
with_call-with_calls c cs (some (b, ds)) = refl

-- Events that do not stop the handling are handled, and the rest after them.
dispatch-append :
    (es rest : List Event)
    → AllContinue es
    → dispatch true (es ++ rest) ≡ with_calls (calls_of es) (dispatch true rest)
unfolding dispatch
dispatch-append [] rest h = with_no_calls (dispatch true rest)
dispatch-append (command answers flag ∷ es) rest (quiet r f t, h) =
    rw (drain-Reads r, f, t) (dispatch-append es rest h)
dispatch-append (watched w none error readable ∷ es) rest (c, h) = dispatch-append es rest h
dispatch-append (watched w (some fd) error true ∷ es) rest (c, h) =
    ap (with_call (record { watcher = w; fd = fd })) (dispatch-append es rest h)
    ∙ with_call-with_calls (record { watcher = w; fd = fd }) (calls_of es) (dispatch true rest)
dispatch-append (watched w (some fd) error false ∷ es) rest (c, h) = dispatch-append es rest h

dispatch-Stops :
    (e : Event) (b : Bool) (after : List Event)
    → Stops e b
    → dispatch true (e ∷ after) ≡ some (b, [])
unfolding dispatch
dispatch-Stops e b after (broken r f) = rw (drain-Reads r, f) refl
dispatch-Stops e b after (ends r f t) = rw (drain-Reads r, f, t) refl

-- Where no event stops the handling, loopOnce calls each watcher of the events that can be read and
-- has a valid descriptor, once and in order, and returns true. At the first event that stops it, the
-- calls of the events before have been made and no other: it returns false where a command or the
-- flag says to terminate, and true where the pipe cannot be read.
pub dispatch_lem :
    (es : List Event) (e : Event) (b : Bool) (later : List Event)
    → AllContinue es
    → Stops e b
    → (dispatch true es ≡ some (true, calls_of es))
      × (dispatch true (es ++ e ∷ later) ≡ some (b, calls_of es))
unfolding dispatch
dispatch_lem es e b later h s = (
  ap (dispatch true) (sym (append-nil es))
      ∙ dispatch-append es [] h
      ∙ ap (λ cs. some (true, cs)) (append-nil (calls_of es)),
  dispatch-append es (e ∷ later) h
      ∙ ap (with_calls (calls_of es)) (dispatch-Stops e b later s)
      ∙ ap (λ cs. some (b, cs)) (append-nil (calls_of es)),
)

-- What `epoll_wait` answers, with what loopOnce then returns and the watchers that it calls: all
-- events are handled; or those before the one that stops it; or there are none.
pub data Answers : WaitResult → Bool → List Call → Type 0 where
  all_handled : (es : List Event) → AllContinue es → Answers (events es) true (calls_of es)
  stopped :
      (es : List Event) (e : Event) (b : Bool) (later : List Event)
      → AllContinue es
      → Stops e b
      → Answers (events (es ++ e ∷ later)) b (calls_of es)
  by_signal : Answers interrupted true []
  by_error : Answers failed false []

pub after_wait-Answers :
    {w : WaitResult} {b : Bool} {cs : List Call} → Answers w b cs → after_wait true w ≡ some (b, cs)
unfolding after_wait
after_wait-Answers (all_handled es h) =
    ap (dispatch true) (sym (append-nil es))
    ∙ dispatch-append es [] h
    ∙ ap (λ cs. some (true, cs)) (append-nil (calls_of es))
after_wait-Answers (stopped es e b later h s) = (dispatch_lem es e b later h s).1
after_wait-Answers by_signal = refl
after_wait-Answers by_error = refl
