-- ===== src/CircularQueue/Fifo.antt =====
-- What the queue promises: a first-in first-out list of at most `cap` elements, oldest first.
use c_wrapper.Prelude.{
  ℕ, Bool, true, false, Option, none, some, List, [], ◌∷◌, ◌++◌, if◌then◌else◌, ltb, length,
}

module _ {ℓ} {A : Type ℓ} where
  abbrev pub get : List A → Bool → List A × Bool × Option A
  get [] out = ([], false, none)
  get (x ∷ xs) out = (xs, true, if out then some x else none)

  abbrev pub put : ℕ → List A → A → List A × Bool
  put cap xs t = if ltb (length xs) cap then (xs ++ t ∷ [], true) else (xs, false)
