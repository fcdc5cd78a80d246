-- ===== src/Mutex/Scopes.antt =====
-- Which mutexes are held.
use mathlib.Core.List.{append_assoc, append-nil}
use c_wrapper.Prelude.{
  ℕ, ◌+◌, ◌-◌, ◌≡◌, refl, arith, Option, none, some, List, [], ◌∷◌, ◌++◌, if◌then◌else◌, ◌==◌, ◌∙◌,
  ap, sym, ==_ne, Bool-cases, inl, inr,
}
use c_wrapper.Mutex.{Call, locks, unlocks, does, Block, ends, returns, acts, scoped, execute}

-- How often the mutex is held after the calls; none where one of them unlocks what is not held.
pub held : (m : ℕ) → List Call → ℕ → Option ℕ
held m [] n = some n
held m (locks k ∷ cs) n = if k == m then held m cs (n + 1) else held m cs n
held m (unlocks k ∷ cs) n =
    let less = held m cs (n - 1) in
    let same = held m cs n in if k == m then (if n == 0 then none else less) else same
held m (does a ∷ cs) n = held m cs n

-- The calls in between leave what is held as it is.
abbrev Neutral : ℕ → List Call → Type 0
Neutral m cs = (n : ℕ) (rest : List Call) → held m (cs ++ rest) n ≡ held m rest n

scope_lem :
    (m k : ℕ) (cs : List Call)
    → Neutral m cs
    → (rest : List Call) (n : ℕ) → held m (locks k ∷ (cs ++ unlocks k ∷ rest)) n ≡ held m rest n
unfolding held
scope_lem m k cs v rest n = elim (Bool-cases (k == m)) [
  | inl same ↦
      rw (same, v (n + 1) (unlocks k ∷ rest), same, ==_ne (n + 1) 0 (omega arith))
        (ap (held m rest) {x = n + 1 - 1} {y = n} (omega arith))
  | inr other ↦ rw (other, v n (unlocks k ∷ rest), other) refl
]

execute-Neutral : (m : ℕ) (b : Block) → Neutral m (execute b).0
unfolding held execute
execute-Neutral m ends n more = refl
execute-Neutral m returns n more = refl
execute-Neutral m (acts a rest) n more = execute-Neutral m rest n more
execute-Neutral m (scoped k inside rest) n more =
    let within = (execute inside).0 in
    let later = (execute rest).0 in
    let v = execute-Neutral m inside in
    elim (Bool-cases (execute inside).1) [
      | inl left ↦
          rw (left, append_assoc within (unlocks k ∷ []) more) (scope_lem m k within v more n)
      | inr stays ↦
          rw (stays, append_assoc within (unlocks k ∷ later) more)
            (scope_lem m k within v (later ++ more) n ∙ execute-Neutral m rest n more)
    ]

-- Wherever a method is left, at its end or by a return inside of blocks with a Lock, each mutex is
-- held as often as before, and no call unlocks what is not held.
pub scopes_lem : (b : Block) (m n : ℕ) → held m (execute b).0 n ≡ some n
unfolding held
scopes_lem b m n =
    ap (λ cs. held m cs n) (sym (append-nil (execute b).0)) ∙ execute-Neutral m b n []
