-- ===== src/MainLoop/Dispatch.antt =====
-- What `loopOnce` of common/MainLoop.cpp does with the events of `epoll_wait`.
pub mod Calls
mod Tests
use c_wrapper.Prelude.{ℕ, Bool, true, false, Option, none, some, List, [], ◌∷◌, ◌||◌, if◌then◌else◌}
use c_wrapper.MainLoop.Pipe.{ReadResult, drain}

-- An event of the command pipe, with what `read` answers and what `mTerminated` holds when it is
-- handled; or one of a watcher, with what `getFD` returns (none: negative) and the flags
-- `EPOLLERR | EPOLLHUP` and `EPOLLIN`.
pub data Event : Type 0 where
  command : (answers : List ReadResult) → (terminated : Bool) → Event
  watched : (watcher : ℕ) → (fd : Option ℕ) → (error : Bool) → (readable : Bool) → Event

-- `watcher->onFdReadable(fd)`.
pub record Call : Type 0 where
  pub watcher : ℕ
  pub fd : ℕ

-- What `epoll_wait` answers: the events, none of them at the end of the wait; or a failure by EINTR or
-- otherwise.
pub data WaitResult : Type 0 where
  events : List Event → WaitResult
  interrupted failed : WaitResult

-- What `drainCommandPipe` has returned decides on the rest of the events.
abbrev pub after_drain :
    Option (Bool × Bool) → Bool → Option (Bool × List Call) → Option (Bool × List Call)
after_drain none flag rest = none
after_drain (some (false, terminated)) flag rest = some (true, [])
after_drain (some (true, terminated)) flag rest =
    if terminated || flag then some (false, []) else rest

abbrev pub with_call : Call → Option (Bool × List Call) → Option (Bool × List Call)
with_call c none = none
with_call c (some (b, cs)) = some (b, c ∷ cs)

-- The loop over the events: what `loopOnce` returns, and the calls; none where it does not return.
unfoldable pub dispatch : (has_pipe : Bool) → List Event → Option (Bool × List Call)
dispatch has_pipe [] = some (true, [])
dispatch has_pipe (command answers flag ∷ es) =
    after_drain (drain has_pipe answers) flag (dispatch has_pipe es)
dispatch has_pipe (watched w none error readable ∷ es) = dispatch has_pipe es
dispatch has_pipe (watched w (some fd) error readable ∷ es) =
    let rest = dispatch has_pipe es in
    if readable then with_call (record { watcher = w; fd = fd }) rest else rest

-- `loopOnce` from the answer of `epoll_wait` on.
unfoldable pub after_wait : (has_pipe : Bool) → WaitResult → Option (Bool × List Call)
unfolding dispatch
after_wait has_pipe (events es) = dispatch has_pipe es
after_wait has_pipe interrupted = some (true, [])
after_wait has_pipe failed = some (false, [])
