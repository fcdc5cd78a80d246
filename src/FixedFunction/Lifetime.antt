-- ===== src/FixedFunction/Lifetime.antt =====
-- The life of a callable over any sequence of operations.
use c_wrapper.Prelude.{
  ℕ, zero, suc, ◌+◌, ◌≡◌, refl, arith, true, List, [], ◌∷◌, length, replicate, length-replicate,
  ◌∙◌,
}
use c_wrapper.FixedFunction.{FixedFunction, empty, Op, makes, assigns, resets, invokes, step, run}
use c_wrapper.FixedFunction.Ownership.{
  all_valid, held, made, ended, made-append, ended-append, is_inside, all_inside, Balanced,
  makes-Balanced, assigns-Balanced, resets-Balanced, invokes-Balanced,
}

step-Balanced :
    (f : ℕ) (o : Op) (xs : List FixedFunction)
    → all_valid xs ≡ true
    → is_inside (length xs) o ≡ true
    → Balanced f xs (step o xs)
step-Balanced f (makes i g) xs v h = makes-Balanced f i g xs v (ground arith)
step-Balanced f (assigns i j) xs v h = assigns-Balanced f i j xs v (ground arith) (ground arith)
step-Balanced f (resets i) xs v h = resets-Balanced f i xs v (ground arith)
step-Balanced f (invokes i) xs v h = invokes-Balanced f i xs v

run-Balanced :
    (f : ℕ) (os : List Op) (xs : List FixedFunction)
    → all_valid xs ≡ true
    → all_inside (length xs) os ≡ true
    → Balanced f xs (run os xs)
unfolding run
run-Balanced f [] xs v h = (v, refl, refl)
run-Balanced f (o ∷ os) xs v h =
    let (xs', es) = step o xs in
    let (v', l, b) = step-Balanced f o xs v (ground arith) in
    let (v'', l', b') = run-Balanced f os xs' v' (rw l (ground arith)) in
    (
      v'',
      l' ∙ l,
      omega (arith, b, b', made-append f es (run os xs').1, ended-append f es (run os xs').1),
    )

held-replicate : (f n : ℕ) → held f (replicate n empty) ≡ 0
held-replicate f zero = refl
held-replicate f (suc n) = omega (arith, held-replicate f n)

all_valid-replicate : (n : ℕ) → all_valid (replicate n empty) ≡ true
all_valid-replicate zero = refl
all_valid-replicate (suc n) = all_valid-replicate n

-- No callable is leaked, lost or destroyed twice: whatever a program does with `n` objects, the
-- times that a callable was constructed are the times that it was destroyed and the objects in which
-- it lives now, each of which has its pointers set.
pub lifetime_lem :
    (f n : ℕ) (os : List Op)
    → all_inside n os ≡ true
    → let (xs, es) = run os (replicate n empty) in
      (ended f es + held f xs ≡ made f es) × (all_valid xs ≡ true)
lifetime_lem f n os h =
    let (v, l, b) =
      run-Balanced f os (replicate n empty) (all_valid-replicate n)
        (rw (length-replicate n empty) h) in
    (omega (arith, b, held-replicate f n), v)
