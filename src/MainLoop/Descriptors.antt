-- ===== src/MainLoop/Descriptors.antt =====
-- The descriptors of common/MainLoop.cpp: the constructor, the destructor, and `SAFE_CLOSE`. A valid
-- descriptor is a number, -1 is none.
pub mod Closed
use c_wrapper.Prelude.{ℕ, Bool, true, false, Option, none, some, List, [], ◌∷◌, ◌++◌}

-- `mEpollFd` and `mPipe`.
pub record Descriptors : Type 0 where
  pub epoll : Option ℕ
  pub pipe_read : Option ℕ
  pub pipe_write : Option ℕ

-- What the system answers: `epoll_create1`, and `pipe2` with both ends of the pipe.
pub record Opened : Type 0 where
  pub created : Option ℕ
  pub piped : Option (ℕ × ℕ)

-- The constructor; the failure of `epoll_ctl` for the pipe is logged and changes nothing.
pub construct : Opened → Descriptors
construct answers = elim answers.created [
  | none ↦ record { epoll = none; pipe_read = none; pipe_write = none }
  | some e ↦ elim answers.piped [
    | none ↦ record { epoll = some e; pipe_read = none; pipe_write = none }
    | some (r, w) ↦ record { epoll = some e; pipe_read = some r; pipe_write = some w }
  ]
]

-- `SAFE_CLOSE`: the descriptor afterwards, and the calls of `close`.
abbrev pub safe_close : Option ℕ → Option ℕ × List ℕ
safe_close none = (none, [])
safe_close (some fd) = (none, fd ∷ [])

-- The destructor, with the calls of `close` in order.
pub destruct : Descriptors → Descriptors × List ℕ
destruct d =
    let (r, first) = safe_close d.pipe_read in
    let (w, second) = safe_close d.pipe_write in
    let (e, third) = safe_close d.epoll in
    (record { epoll = e; pipe_read = r; pipe_write = w }, first ++ second ++ third)

-- The calls that have opened a descriptor: `pipe2` is not reached where `epoll_create1` fails.
abbrev pub opened : Opened → List ℕ
opened answers = elim answers.created [
  | none ↦ []
  | some e ↦ elim answers.piped [ none ↦ e ∷ [] | some (r, w) ↦ e ∷ r ∷ w ∷ [] ]
]
