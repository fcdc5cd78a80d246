-- ===== src/Log/Function/Tests.antt =====
-- Names of functions.
use c_wrapper.Prelude.{◌≡◌, refl, some, none, List, ℕ, [], ◌∷◌, ◌++◌, ◌<◌, length}
use c_wrapper.Log.Function.{max_function_size, last_at, scan, simplify}
use c_wrapper.Log.Function.Name.{simplify-length, simplify_lem}

abbrev void : List ℕ
void = b'v' ∷ b'o' ∷ b'i' ∷ b'd' ∷ []

abbrev run_name : List ℕ
run_name = b'A' ∷ b':' ∷ b':' ∷ b'r' ∷ b'u' ∷ b'n' ∷ []

-- `void A::run()`.
abbrev pretty : List ℕ
pretty = void ++ b' ' ∷ run_name ++ b'(' ∷ b')' ∷ []

simplify-length_test : length run_name < max_function_size
simplify-length_test =
    simplify-length (some pretty) run_name (simplify_lem void run_name (b')' ∷ []) refl refl)

-- A constructor, `A::A()`, has no space before its name: the result is indeterminate.
constructor_test : simplify (some (b'A' ∷ b':' ∷ b':' ∷ b'A' ∷ b'(' ∷ b')' ∷ [])) ≡ none
unfolding simplify last_at scan
constructor_test = refl
