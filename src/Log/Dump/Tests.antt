-- ===== src/Log/Dump/Tests.antt =====
-- Dumps.
use c_wrapper.Prelude.{◌≡◌, arith, ℕ, some, List, [], ◌∷◌}
use c_wrapper.Log.{level_debug, level_trace}
use c_wrapper.Log.Dump.{dump}
use c_wrapper.Log.Dump.Lines.{AllBytes, AllShorter, dump-AllShorter}
use c_wrapper.Log.Dump.Decode.{decode, decode-dump}

-- Eighteen bytes, two lines.
abbrev some_bytes : List ℕ
some_bytes =
    0 ∷ 255 ∷ 16 ∷ 1 ∷ 2 ∷ 3 ∷ 65 ∷ 66 ∷ 67 ∷ 127 ∷ 128 ∷ 9 ∷ 10 ∷ 32 ∷ 31 ∷ 200 ∷ 77 ∷ 254 ∷ []

some_bytes-AllBytes : AllBytes some_bytes
some_bytes-AllBytes = ground arith

decode-dump_example : decode (dump level_trace level_debug (some some_bytes)) ≡ some_bytes
decode-dump_example =
    decode-dump level_trace level_debug some_bytes some_bytes-AllBytes (omega arith) (omega arith)

dump-AllShorter_example : AllShorter 128 (dump level_trace level_debug (some some_bytes))
dump-AllShorter_example = dump-AllShorter level_trace level_debug some_bytes some_bytes-AllBytes
