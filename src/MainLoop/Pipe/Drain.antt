-- ===== src/MainLoop/Pipe/Drain.antt =====
-- What `drainCommandPipe` reports of the bytes that it reads.
use c_wrapper.Prelude.{
  ◌≡◌, arith, Bool, true, false, some, List, [], ◌∷◌, ◌++◌, ◌||◌, ◌&&◌, not, ◌==◌,
}
use c_wrapper.MainLoop.Pipe.{
  ReadResult, byte, interrupted, failed, terminate_code, after_command, drain_from, drain,
}

-- The answers after which the loop reads again.
abbrev pub goes_on : ReadResult → Bool
goes_on (byte value) = true
goes_on interrupted = true
goes_on _ = false

abbrev pub all_go_on : List ReadResult → Bool
all_go_on [] = true
all_go_on (r ∷ rs) = goes_on r && all_go_on rs

abbrev pub is_terminate : ReadResult → Bool
is_terminate (byte value) = value == terminate_code
is_terminate _ = false

-- One of the bytes is the command to terminate.
abbrev pub has_terminate : List ReadResult → Bool
has_terminate [] = false
has_terminate (r ∷ rs) = is_terminate r || has_terminate rs

abbrev pub is_failed : ReadResult → Bool
is_failed failed = true
is_failed _ = false

drain_from_lem :
    (t : Bool) (rs : List ReadResult) (last : ReadResult) (rest : List ReadResult)
    → all_go_on rs ≡ true
    → goes_on last ≡ false
    → drain_from t (rs ++ last ∷ rest) ≡ some (not (is_failed last), t || has_terminate rs)
unfolding drain_from
drain_from_lem t [] (byte v) rest h k = cc
drain_from_lem t [] last rest h k = ground arith
drain_from_lem t (byte v ∷ rs) last rest h k =
    ground (arith, drain_from_lem (after_command t v) rs last rest)
drain_from_lem t (r ∷ rs) last rest h k = ground (arith, drain_from_lem t rs last rest)

-- With a pipe, drainCommandPipe returns at the first answer that is no byte and no EINTR: true
-- unless that is a failure, and then `terminated` says exactly whether one of the bytes before was
-- the command to terminate. Unknown bytes and interruptions change nothing.
pub drain_lem :
    (rs : List ReadResult) (last : ReadResult) (rest : List ReadResult)
    → all_go_on rs ≡ true
    → goes_on last ≡ false
    → drain true (rs ++ last ∷ rest) ≡ some (not (is_failed last), has_terminate rs)
unfolding drain
drain_lem rs last rest h k = drain_from_lem false rs last rest h k
