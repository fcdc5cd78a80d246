-- ===== src/MainLoop/Pipe.antt =====
-- The command pipe of common/MainLoop.cpp: `sendCommand` and `drainCommandPipe`. `read` and `write`
-- are calls of the system, so a call of either function is given what they answer, in order.
pub mod Drain
mod Tests
use c_wrapper.Prelude.{
  ℕ, Bool, true, false, Option, none, some, List, [], ◌∷◌, ◌||◌, if◌then◌else◌, ◌==◌,
}

-- `LoopCommand`.
abbrev pub wakeup_code : ℕ
wakeup_code = b'S'

abbrev pub terminate_code : ℕ
terminate_code = b'T'

-- What `write` answers: one byte written; or a failure by EINTR, EAGAIN or otherwise, or no byte.
pub data WriteResult : Type 0 where
  wrote interrupted would_block failed : WriteResult

-- `sendCommand`: whether the byte was written, or none where it has not returned after these answers.
pub send_command : (has_pipe : Bool) → List WriteResult → Option Bool
send_command false ws = some false
send_command true [] = none
send_command true (wrote ∷ ws) = some true
send_command true (interrupted ∷ ws) = send_command true ws
send_command true (would_block ∷ ws) = some false
send_command true (failed ∷ ws) = some false

-- What `read` answers: a byte; or a failure by EINTR, EAGAIN or otherwise, or the end of the file.
pub data ReadResult : Type 0 where
  byte : ℕ → ReadResult
  interrupted would_block end_of_file failed : ReadResult

-- The `switch` of `drainCommandPipe`, on `terminated`.
abbrev pub after_command : Bool → ℕ → Bool
after_command terminated value = if value == terminate_code then true else terminated

-- The loop of `drainCommandPipe`: what it returns and `terminated`.
unfoldable pub drain_from : Bool → List ReadResult → Option (Bool × Bool)
drain_from terminated [] = none
drain_from terminated (byte value ∷ rs) = drain_from (after_command terminated value) rs
drain_from terminated (interrupted ∷ rs) = drain_from terminated rs
drain_from terminated (would_block ∷ rs) = some (true, terminated)
drain_from terminated (end_of_file ∷ rs) = some (true, terminated)
drain_from terminated (failed ∷ rs) = some (false, terminated)

-- `drainCommandPipe`.
unfoldable pub drain : (has_pipe : Bool) → List ReadResult → Option (Bool × Bool)
unfolding drain_from
drain has_pipe rs = if has_pipe then drain_from false rs else some (false, false)
