-- ===== src/Prelude/Slices.antt =====
-- Tabulated lists under `take` and `drop`.
use Prim.Native.Nat.{ℕ, zero, suc, ◌+◌, ◌-◌, ◌≤◌, min}
use mathlib.Core.Path.{◌≡◌, refl, ap, ◌∙◌}
use mathlib.Core.List.{List, [], ◌∷◌, ◌++◌}
use native.Mathlib.Omega.{arith}
use c_wrapper.Prelude.Lists.{length, get_or, take, drop, tabulate, tabulate-ext}

module _ {ℓ} {A : Type ℓ} where
  pub drop-tabulate :
      (m n : ℕ) (f : ℕ → A) → drop m (tabulate n f) ≡ tabulate (n - m) (λ i. f (m + i))
  drop-tabulate zero n f =
      ap (λ k. tabulate k f) {x = n} {y = n - 0} (omega arith)
      ∙ tabulate-ext (n - 0) f (λ i. f (0 + i)) (λ i p. ap f {x = i} (omega arith))
  drop-tabulate (suc m) zero f =
      ap (λ k. tabulate k (λ i. f (suc m + i))) {x = 0} {y = 0 - suc m} (omega arith)
  drop-tabulate (suc m) (suc n) f =
      drop-tabulate m n (λ i. f (suc i))
      ∙ ap (λ k. tabulate k (λ i. f (suc (m + i)))) {x = n - m} {y = suc n - suc m} (omega arith)
      ∙ tabulate-ext (suc n - suc m) (λ i. f (suc (m + i))) (λ i. f (suc m + i))
          (λ i p. ap f {x = suc (m + i)} (omega arith))

  pub take-tabulate : (m n : ℕ) (f : ℕ → A) → take m (tabulate n f) ≡ tabulate (min m n) f
  take-tabulate zero n f = ap (λ k. tabulate k f) {x = 0} {y = min 0 n} (omega arith)
  take-tabulate (suc m) zero f = ap (λ k. tabulate k f) {x = 0} {y = min (suc m) 0} (omega arith)
  take-tabulate (suc m) (suc n) f =
      ap (◌∷◌ (f 0)) (take-tabulate m n (λ i. f (suc i)))
      ∙ ap (λ k. tabulate k f) {x = suc (min m n)} {y = min (suc m) (suc n)} (omega arith)

  -- The stretch of a list from `i` on, place by place.
  pub take-drop-eq-tabulate :
      (n i : ℕ) (xs : List A) (d : A)
      → i + n ≤ length xs
      → take n (drop i xs) ≡ tabulate n (λ k. get_or xs (i + k) d)
  take-drop-eq-tabulate zero i xs d h = refl
  take-drop-eq-tabulate (suc n) i [] d h = absurd (omega arith)
  take-drop-eq-tabulate (suc n) zero (x ∷ xs) d h = ap (◌∷◌ x) (
      take-drop-eq-tabulate n 0 xs d (omega arith)
      ∙ tabulate-ext n _ (λ k. get_or (x ∷ xs) (0 + suc k) d)
          (λ k p. ap (λ j. get_or (x ∷ xs) j d) {x = suc (0 + k)} (omega arith)))
  take-drop-eq-tabulate (suc n) (suc i) (x ∷ xs) d h =
      take-drop-eq-tabulate (suc n) i xs d (omega arith)
      ∙ tabulate-ext (suc n) _ (λ k. get_or (x ∷ xs) (suc i + k) d)
          (λ k p. ap (λ j. get_or (x ∷ xs) j d) {x = suc (i + k)} (omega arith))

  pub take-append-drop : (n : ℕ) (xs : List A) → take n xs ++ drop n xs ≡ xs
  take-append-drop zero xs = refl
  take-append-drop (suc n) [] = refl
  take-append-drop (suc n) (x ∷ xs) = ap (◌∷◌ x) (take-append-drop n xs)

  -- Dropping more than there is drops all.
  pub drop-min : (n m : ℕ) (xs : List A) → m ≡ min n (length xs) → drop m xs ≡ drop n xs
  drop-min zero m xs e = ap (λ k. drop k xs) {x = m} {y = 0} (omega arith)
  drop-min (suc n) zero [] e = refl
  drop-min (suc n) (suc m) [] e = refl
  drop-min (suc n) zero (x ∷ xs) e = absurd (omega arith)
  drop-min (suc n) (suc m) (x ∷ xs) e = drop-min n m xs (omega arith)

  pub take-eq-tabulate :
      (n : ℕ) (xs : List A) (d : A) → n ≤ length xs → take n xs ≡ tabulate n (λ k. get_or xs k d)
  take-eq-tabulate n xs d h =
      take-drop-eq-tabulate n 0 xs d (omega arith)
      ∙ tabulate-ext n _ (λ k. get_or xs k d)
          (λ k p. ap (λ j. get_or xs j d) {x = 0 + k} (omega arith))
