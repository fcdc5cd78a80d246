-- ===== src/Prelude/Lists.antt =====
-- Lists measured and indexed by native numbers, and tabulated windows of them.
use Prim.Native.Nat.{ℕ, zero, suc, ◌+◌, ◌-◌, ◌≤◌, ◌<◌, min}
use mathlib.Core.Path.{◌≡◌, refl, ap, ap₂, ◌∙◌}
use mathlib.Core.Logic.{◌≢◌, ◌⊎◌}
use mathlib.Core.List.{List, [], ◌∷◌, ◌++◌}
use mathlib.Core.Option.{Option, none, some}
use native.Mathlib.Omega.{arith}

module _ {ℓ} {A : Type ℓ} where
  abbrev pub length : List A → ℕ
  length [] = 0
  length (x ∷ xs) = suc (length xs)

  abbrev pub get_elem? : List A → ℕ → Option A
  get_elem? [] i = none
  get_elem? (x ∷ xs) zero = some x
  get_elem? (x ∷ xs) (suc i) = get_elem? xs i

  abbrev pub get_or : List A → ℕ → A → A
  get_or [] i d = d
  get_or (x ∷ xs) zero d = x
  get_or (x ∷ xs) (suc i) d = get_or xs i d

  -- A write out of bounds changes nothing.
  abbrev pub set : List A → ℕ → A → List A
  set [] i v = []
  set (x ∷ xs) zero v = v ∷ xs
  set (x ∷ xs) (suc i) v = x ∷ set xs i v

  abbrev pub take : ℕ → List A → List A
  take zero xs = []
  take (suc n) [] = []
  take (suc n) (x ∷ xs) = x ∷ take n xs

  abbrev pub drop : ℕ → List A → List A
  drop zero xs = xs
  drop (suc n) [] = []
  drop (suc n) (x ∷ xs) = drop n xs

  abbrev pub replicate : ℕ → A → List A
  replicate zero a = []
  replicate (suc n) a = a ∷ replicate n a

  -- The list `f 0 ∷ … ∷ f (n - 1)`.
  abbrev pub tabulate : ℕ → (ℕ → A) → List A
  tabulate zero f = []
  tabulate (suc n) f = f 0 ∷ tabulate n (λ i. f (suc i))

  -- `memcpy (xs + i, ys, length ys)`; what would fall outside of `xs` is not written.
  abbrev pub blit : List A → ℕ → List A → List A
  blit xs i [] = xs
  blit xs i (y ∷ ys) = set (blit xs (suc i) ys) i y

module _ {ℓ} {A : Type ℓ} where
  pub length-append : (xs ys : List A) → length (xs ++ ys) ≡ length xs + length ys
  length-append [] ys = omega arith
  length-append (x ∷ xs) ys = omega (arith, length-append xs ys)

  pub length-set : (xs : List A) (i : ℕ) (v : A) → length (set xs i v) ≡ length xs
  length-set [] i v = refl
  length-set (x ∷ xs) zero v = refl
  length-set (x ∷ xs) (suc i) v = ap suc (length-set xs i v)

  pub length-blit : (xs : List A) (i : ℕ) (ys : List A) → length (blit xs i ys) ≡ length xs
  length-blit xs i [] = refl
  length-blit xs i (y ∷ ys) = length-set (blit xs (suc i) ys) i y ∙ length-blit xs (suc i) ys

  pub length-replicate : (n : ℕ) (a : A) → length (replicate n a) ≡ n
  length-replicate zero a = refl
  length-replicate (suc n) a = ap suc (length-replicate n a)

  pub length-take : (n : ℕ) (xs : List A) → length (take n xs) ≡ min n (length xs)
  length-take zero xs = omega arith
  length-take (suc n) [] = omega arith
  length-take (suc n) (x ∷ xs) = omega (arith, length-take n xs)

  pub length-drop : (n : ℕ) (xs : List A) → length (drop n xs) ≡ length xs - n
  length-drop zero xs = omega arith
  length-drop (suc n) [] = omega arith
  length-drop (suc n) (x ∷ xs) = omega (arith, length-drop n xs)

  pub length-tabulate : (n : ℕ) (f : ℕ → A) → length (tabulate n f) ≡ n
  length-tabulate zero f = refl
  length-tabulate (suc n) f = ap suc (length-tabulate n (λ i. f (suc i)))

  pub get_or-set_self :
      (xs : List A) (i : ℕ) (v d : A) → i < length xs → get_or (set xs i v) i d ≡ v
  get_or-set_self [] i v d h = absurd (omega arith)
  get_or-set_self (x ∷ xs) zero v d h = refl
  get_or-set_self (x ∷ xs) (suc i) v d h = get_or-set_self xs i v d (omega arith)

  pub get_or-set_ne :
      (xs : List A) (i j : ℕ) (v d : A) → i ≢ j → get_or (set xs i v) j d ≡ get_or xs j d
  get_or-set_ne [] i j v d h = refl
  get_or-set_ne (x ∷ xs) zero zero v d h = absurd (h refl)
  get_or-set_ne (x ∷ xs) zero (suc j) v d h = refl
  get_or-set_ne (x ∷ xs) (suc i) zero v d h = refl
  get_or-set_ne (x ∷ xs) (suc i) (suc j) v d h = get_or-set_ne xs i j v d (λ e. h (ap suc e))

  -- What a `memcpy` writes is read back at its place …
  pub get_or-blit :
      (xs : List A) (i j : ℕ) (ys : List A) (k : ℕ) (d : A)
      → i + length ys ≤ length xs
      → k < length ys
      → j ≡ i + k
      → get_or (blit xs i ys) j d ≡ get_or ys k d
  get_or-blit xs i j [] k d h l e = absurd (omega arith)
  get_or-blit xs i j (y ∷ ys) zero d h l e =
      let here : j ≡ i = omega arith in
      rw here
        (get_or-set_self (blit xs (suc i) ys) i y d (omega (arith, length-blit xs (suc i) ys)))
  get_or-blit xs i j (y ∷ ys) (suc k) d h l e =
      get_or-set_ne (blit xs (suc i) ys) i j y d (omega arith)
      ∙ get_or-blit xs (suc i) j ys k d (omega arith) (omega arith) (omega arith)

  -- … and nothing else changes.
  pub get_or-blit_outside :
      (xs : List A) (i j : ℕ) (ys : List A) (d : A)
      → (j < i) ⊎ (i + length ys ≤ j)
      → get_or (blit xs i ys) j d ≡ get_or xs j d
  get_or-blit_outside xs i j [] d h = refl
  get_or-blit_outside xs i j (y ∷ ys) d h =
      get_or-set_ne (blit xs (suc i) ys) i j y d (omega arith)
      ∙ get_or-blit_outside xs (suc i) j ys d (omega arith)

  pub get_or-take :
      (n : ℕ) (xs : List A) (i : ℕ) (d : A) → i < n → get_or (take n xs) i d ≡ get_or xs i d
  get_or-take zero xs i d h = absurd (omega arith)
  get_or-take (suc n) [] i d h = refl
  get_or-take (suc n) (x ∷ xs) zero d h = refl
  get_or-take (suc n) (x ∷ xs) (suc i) d h = get_or-take n xs i d (omega arith)

  pub get_or-drop :
      (n : ℕ) (xs : List A) (i : ℕ) (d : A) → get_or (drop n xs) i d ≡ get_or xs (n + i) d
  get_or-drop zero xs i d = ground arith
  get_or-drop (suc n) [] i d = refl
  get_or-drop (suc n) (x ∷ xs) i d = ground (arith, get_or-drop n xs i d)

  pub tabulate-ext :
      (n : ℕ) (f g : ℕ → A) → ((i : ℕ) → i < n → f i ≡ g i) → tabulate n f ≡ tabulate n g
  tabulate-ext zero f g h = refl
  tabulate-ext (suc n) f g h =
      ap₂ ◌∷◌ (h 0 (omega arith)) (tabulate-ext n _ _ (λ i p. h (suc i) (omega arith)))

  pub tabulate-append :
      (n m : ℕ) (f : ℕ → A) → tabulate (n + m) f ≡ tabulate n f ++ tabulate m (λ i. f (n + i))
  tabulate-append zero m f =
      ap (λ k. tabulate k f) {x = 0 + m} {y = m} (omega arith)
      ∙ tabulate-ext m f (λ i. f (0 + i)) (λ i p. ap f {x = i} (omega arith))
  tabulate-append (suc n) m f =
      ap (λ k. tabulate k f) {x = suc n + m} {y = suc (n + m)} (omega arith)
      ∙ ap (◌∷◌ (f 0)) (
          tabulate-append n m (λ i. f (suc i))
          ∙ ap (◌++◌ (tabulate n (λ i. f (suc i)))) (
              tabulate-ext m (λ i. f (suc (n + i))) (λ i. f (suc n + i))
                (λ i p. ap f {x = suc (n + i)} (omega arith))))

  pub tabulate-get_or : (xs : List A) (d : A) → tabulate (length xs) (λ i. get_or xs i d) ≡ xs
  tabulate-get_or [] d = refl
  tabulate-get_or (x ∷ xs) d = ap (◌∷◌ x) (tabulate-get_or xs d)
