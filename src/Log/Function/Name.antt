-- ===== src/Log/Function/Name.antt =====
-- The result of `simplify_function`.
use mathlib.Core.List.{append_assoc}
use mathlib.Core.Option.{some-injective}
use c_wrapper.Prelude.{
  ℕ, suc, ◌+◌, ◌-◌, ◌≤◌, ◌<◌, ◌≡◌, refl, arith, Bool, true, false, Option, none, some, List, [],
  ◌∷◌, ◌++◌, ◌&&◌, not, leb, ◌==◌, length, length-append, length-take, take, drop, ap, ap₂, subst,
  lt→ltb, ◌∙◌, Bool-cases, inl, inr,
}
use c_wrapper.Log.Function.{max_function_size, last_at, scan, dots, shortened, between, simplify}

-- The byte is not in the text.
abbrev pub lacks : ℕ → List ℕ → Bool
lacks c [] = true
lacks c (x ∷ xs) = not (x == c) && lacks c xs

pub last_at-lacks : (c : ℕ) (xs : List ℕ) → lacks c xs ≡ true → last_at c xs ≡ none
unfolding last_at
last_at-lacks c [] h = refl
last_at-lacks c (x ∷ xs) h = ground (arith, last_at-lacks c xs)

pub last_at-append :
    (c : ℕ) (xs ys : List ℕ) → lacks c ys ≡ true → last_at c (xs ++ c ∷ ys) ≡ some (length xs)
unfolding last_at
last_at-append c [] ys h = ground (arith, last_at-lacks c ys h)
last_at-append c (x ∷ xs) ys h = rw (last_at-append c xs ys h) (ap some (omega arith))

scan-late : (begin : Option ℕ) (i end : ℕ) (xs : List ℕ) → end ≤ i → scan begin i end xs ≡ begin
unfolding scan
scan-late begin i end [] h = refl
scan-late begin i end (x ∷ xs) h = ground (arith, scan-late begin (i + 1) end xs)

-- The text before the last space is skipped.
scan-before :
    (xs rest : List ℕ) (begin : Option ℕ) (i end : ℕ)
    → i + length xs < end
    → scan begin i end (xs ++ b' ' ∷ rest)
      ≡ scan (some (i + length xs)) (i + length xs + 1) end rest
unfolding scan
scan-before [] rest begin i end h =
    rw (lt→ltb i end (omega arith))
      (ap (λ k. scan (some k) (k + 1) end rest) {x = i} {y = i + 0} (omega arith))
scan-before (x ∷ xs) rest begin i end h =
    let at : i + 1 + length xs ≡ i + length (x ∷ xs) = omega arith in
    let to_end = ap (λ k. scan (some k) (k + 1) end rest) at in
    elim (Bool-cases (x == b' ')) [
      | inl space ↦
          rw (space, lt→ltb i end (omega arith))
            (scan-before xs rest (some i) (i + 1) end (omega arith) ∙ to_end)
      | inr other ↦ rw other (scan-before xs rest begin (i + 1) end (omega arith) ∙ to_end)
    ]

scan-name :
    (xs rest : List ℕ) (begin : Option ℕ) (i end : ℕ)
    → lacks b' ' xs ≡ true
    → scan begin i end (xs ++ rest) ≡ scan begin (i + length xs) end rest
unfolding scan
scan-name [] rest begin i end h = ap (λ k. scan begin k end rest) {x = i} {y = i + 0} (omega arith)
scan-name (x ∷ xs) rest begin i end h =
    let other : (x == b' ') ≡ false = ground arith in
    rw other (
      scan-name xs rest begin (i + 1) end (ground arith)
      ∙ ap (λ k. scan begin k end rest) {x = i + 1 + length xs} {y = i + length (x ∷ xs)}
          (omega arith))

drop-past : {A : Type 0} → (xs ys : List A) (c : A) → drop (suc (length xs)) (xs ++ c ∷ ys) ≡ ys
drop-past [] ys c = refl
drop-past (x ∷ xs) ys c = drop-past xs ys c

take-length-append : {A : Type 0} → (xs ys : List A) → take (length xs) (xs ++ ys) ≡ xs
take-length-append [] ys = refl
take-length-append (x ∷ xs) ys = ap (λ zs. x ∷ zs) (take-length-append xs ys)

-- The buffer holds the result, with its end mark.
shortened-length : (xs : List ℕ) → length (shortened xs) < max_function_size
shortened-length xs = elim (Bool-cases (leb max_function_size (length xs))) [
  | inl long ↦ rw long (
      omega (
        arith,
        length-append (take (max_function_size - 4) xs) dots,
        length-take (max_function_size - 4) xs,
      ))
  | inr short ↦ rw short (ground arith)
]

between-length :
    (begin : Option ℕ) (end : ℕ) (func : List ℕ) (name : List ℕ)
    → between begin end func ≡ some name
    → length name < max_function_size
between-length none end func name e = cc
between-length (some b) end func name e =
    subst (λ xs. length xs < max_function_size) (some-injective _ _ e)
      (shortened-length (take (end - (b + 1)) (drop (b + 1) func)))

-- What simplify_function returns fits with its end mark into the caller's array of 128 bytes, where
-- the result is determinate.
pub simplify-length :
    (func : Option (List ℕ)) (name : List ℕ)
    → simplify func ≡ some name
    → length name < max_function_size
unfolding simplify
simplify-length none name e =
    subst (λ xs. length xs < max_function_size) (some-injective _ _ e) (omega arith)
simplify-length (some func) name e = between-length _ _ func name e

pub simplify_lem :
    (before name args : List ℕ)
    → lacks b' ' name ≡ true
    → lacks b'(' args ≡ true
    → simplify (some (before ++ b' ' ∷ name ++ b'(' ∷ args)) ≡ some (shortened name)
unfolding simplify
simplify_lem before name args h k =
    let func = before ++ b' ' ∷ name ++ b'(' ∷ args in
    let end = length (before ++ b' ' ∷ name) in
    let at_end : last_at b'(' func ≡ some end =
      last_at-append b'(' (before ++ b' ' ∷ name) args k in
    let assoc = append_assoc before (b' ' ∷ name) (b'(' ∷ args) in
    let l = length-append before (b' ' ∷ name) in
    let begin : scan none 0 end func ≡ some (0 + length before) =
      ap (scan none 0 end) assoc
      ∙ scan-before before (name ++ b'(' ∷ args) none 0 end (omega (arith, l))
      ∙ scan-name name (b'(' ∷ args) _ _ end h
      ∙ scan-late _ (0 + length before + 1 + length name) end (b'(' ∷ args) (omega (arith, l)) in
    rw (at_end, begin)
      (ap (λ xs. some (shortened xs))
        (ap₂ take {x = end - (0 + length before + 1)} {y = length name} (omega (arith, l)) (
            ap₂ drop {x = 0 + length before + 1} {y = suc (length before)} (omega arith) assoc
            ∙ drop-past before (name ++ b'(' ∷ args) b' ')
          ∙ take-length-append name (b'(' ∷ args)))
