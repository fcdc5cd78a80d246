-- ===== src/MainLoop/Dispatch/Tests.antt =====
-- Events of watchers and of the command pipe.
use c_wrapper.Prelude.{◌≡◌, refl, true, false, none, some, List, [], ◌∷◌, ◌++◌}
use c_wrapper.MainLoop.Pipe.{byte, would_block, wakeup_code, terminate_code}
use c_wrapper.MainLoop.Dispatch.{Event, command, watched, dispatch}
use c_wrapper.MainLoop.Dispatch.Calls.{
  reads, quiet, any_watcher, ends, AllContinue, calls_of, dispatch_lem,
}

-- A watcher that can be read, a wakeup, a watcher without a descriptor and one with an error only.
abbrev ready : List Event
ready =
    watched 7 (some 4) false true
    ∷ command (byte wakeup_code ∷ would_block ∷ []) false
    ∷ watched 8 none false true
    ∷ watched 9 (some 5) true false
    ∷ []

ready-AllContinue : AllContinue ready
ready-AllContinue = (
  any_watcher,
  (
    quiet (reads (byte wakeup_code ∷ []) would_block [] refl refl) refl refl,
    (any_watcher, (any_watcher, tt)),
  ),
)

-- The last event is a command to terminate, before watchers that are not called any more.
dispatch_lem_example :
    (dispatch true ready ≡ some (true, calls_of ready))
    × (dispatch true (ready ++ command (byte terminate_code ∷ would_block ∷ []) false ∷ ready)
        ≡ some (false, calls_of ready))
dispatch_lem_example =
    dispatch_lem ready (command (byte terminate_code ∷ would_block ∷ []) false) false ready
      ready-AllContinue (ends (reads (byte terminate_code ∷ []) would_block [] refl refl) refl refl)
