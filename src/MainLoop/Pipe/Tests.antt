-- ===== src/MainLoop/Pipe/Tests.antt =====
-- Runs of the command pipe.
use c_wrapper.Prelude.{◌≡◌, refl, true, false, some, none, [], ◌∷◌, ◌++◌}
use c_wrapper.MainLoop.Pipe.{
  WriteResult, wrote, send_command, ReadResult, byte, wakeup_code, terminate_code, drain,
}
use c_wrapper.MainLoop.Pipe.Drain.{drain_lem}

sent_after_interrupt : send_command true (WriteResult.interrupted ∷ wrote ∷ []) ≡ some true
unfolding send_command
sent_after_interrupt = refl

full_pipe : send_command true (WriteResult.would_block ∷ []) ≡ some false
unfolding send_command
full_pipe = refl

still_reading : drain true (byte wakeup_code ∷ ReadResult.interrupted ∷ []) ≡ none
unfolding drain
still_reading = refl

drain_lem_example :
    drain true (
      (byte terminate_code ∷ ReadResult.interrupted ∷ byte wakeup_code ∷ [])
      ++ ReadResult.would_block ∷ [])
    ≡ some (true, true)
drain_lem_example =
    drain_lem (byte terminate_code ∷ ReadResult.interrupted ∷ byte wakeup_code ∷ [])
      ReadResult.would_block [] refl refl
