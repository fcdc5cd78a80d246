-- ===== src/Log/Calls/Names.antt =====
-- The names of files in a log.
use c_wrapper.Prelude.{
  ℕ, suc, ◌+◌, ◌≡◌, ◌⊎◌, inl, inr, refl, sym, ap, ◌∙◌, arith, true, List, [], ◌∷◌, ◌++◌, ◌==◌, some,
  drop, take, subst, length, length-take, ◌<◌, Bool-cases,
}
use c_wrapper.Log.Function.{simplify, max_function_size}
use c_wrapper.Log.Function.Name.{lacks, last_at-lacks, last_at-append}
use c_wrapper.Log.Calls.{base_name, Place, place_text, stack_trace}

-- A text without the byte, or the two texts around its last one.
split_lem :
    (c : ℕ) (xs : List ℕ)
    → (lacks c xs ≡ true)
      ⊎ ((dir : List ℕ) × (rest : List ℕ) × (xs ≡ dir ++ c ∷ rest) × (lacks c rest ≡ true))
split_lem c [] = inl refl
split_lem c (x ∷ xs) = elim (split_lem c xs) [
  | inl l ↦ elim (Bool-cases (x == c)) [
    | inl same ↦ inr ([], xs, ap (λ y. y ∷ xs) (ground arith), l)
    | inr other ↦ inl (ground arith)
  ]
  | inr (dir, rest, e, l) ↦ inr (x ∷ dir, rest, ap (◌∷◌ x) e, l)
]

drop_after : (dir rest : List ℕ) (c : ℕ) → drop (length dir + 1) (dir ++ c ∷ rest) ≡ rest
drop_after [] rest c = refl
drop_after (x ∷ dir) rest c =
    let next : length (x ∷ dir) + 1 ≡ suc (length dir + 1) = omega arith in
    ap (λ k. drop k (x ∷ dir ++ c ∷ rest)) next ∙ drop_after dir rest c

after_lem : (dir rest : List ℕ) → lacks b'/' rest ≡ true → base_name (dir ++ b'/' ∷ rest) ≡ rest
unfolding base_name
after_lem dir rest l = rw (last_at-append b'/' dir rest l) (drop_after dir rest b'/')

whole_lem : (path : List ℕ) → lacks b'/' path ≡ true → base_name path ≡ path
unfolding base_name
whole_lem path l = rw (last_at-lacks b'/' path l) refl

-- The name of a file in a log has no slash, and is the whole path or what follows a slash of it.
pub base_name_lem :
    (path : List ℕ)
    → (lacks b'/' (base_name path) ≡ true)
      × ((base_name path ≡ path) ⊎ ((dir : List ℕ) × (path ≡ dir ++ b'/' ∷ base_name path)))
base_name_lem path = elim (split_lem b'/' path) [
  | inl l ↦ let same = whole_lem path l in (subst (λ b. lacks b'/' b ≡ true) (sym same) l, inl same)
  | inr (dir, rest, e, l) ↦
      let same : base_name path ≡ rest = ap base_name e ∙ after_lem dir rest l in
      (
        subst (λ b. lacks b'/' b ≡ true) (sym same) l,
        inr (dir, e ∙ ap (λ b. dir ++ b'/' ∷ b) (sym same)),
      )
]

-- The text of a trace fits `mStackTrace` with its end mark.
pub stack_trace_lem :
    (p : Place) (name : List ℕ)
    → simplify (some p.func) ≡ some name
    → (trace : List ℕ) × (stack_trace p ≡ some trace) × (length trace < max_function_size)
unfolding stack_trace
stack_trace_lem p name e =
    let text = take 126 (place_text p name) in
    (text, rw e refl, ground (arith, length-take 126 (place_text p name)))
