-- ===== src/Log/Calls/Tests.antt =====
-- File names and traces.
use c_wrapper.Prelude.{◌≡◌, ◌⊎◌, ◌<◌, refl, true, some, List, [], ◌∷◌, ◌++◌, ℕ, length}
use c_wrapper.Log.Function.{simplify, last_at, scan, max_function_size}
use c_wrapper.Log.Function.Name.{lacks}
use c_wrapper.Log.Calls.{base_name, Place, stack_trace}
use c_wrapper.Log.Calls.Names.{base_name_lem, stack_trace_lem}

-- "src/Main"
abbrev path : List ℕ
path = b's' ∷ b'r' ∷ b'c' ∷ b'/' ∷ b'M' ∷ b'a' ∷ b'i' ∷ b'n' ∷ []

path_test : base_name path ≡ b'M' ∷ b'a' ∷ b'i' ∷ b'n' ∷ []
unfolding base_name last_at
path_test = refl

base_name_lem_test :
    (lacks b'/' (base_name path) ≡ true)
    × ((base_name path ≡ path) ⊎ ((dir : List ℕ) × (path ≡ dir ++ b'/' ∷ base_name path)))
base_name_lem_test = base_name_lem path

-- "int f()" on line 7
abbrev place : Place
place = record { file = path; line = 7; func = b'i' ∷ b'n' ∷ b't' ∷ b' ' ∷ b'f' ∷ b'(' ∷ b')' ∷ [] }

named : simplify (some place.func) ≡ some (b'f' ∷ [])
unfolding simplify last_at scan
named = refl

stack_trace_lem_test :
    (trace : List ℕ) × (stack_trace place ≡ some trace) × (length trace < max_function_size)
stack_trace_lem_test = stack_trace_lem place (b'f' ∷ []) named
