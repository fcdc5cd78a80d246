-- ===== src/FixedFunction/Ownership.antt =====
-- Where a callable lives, from its construction to its destruction.
use c_wrapper.Prelude.{
  ℕ, zero, suc, ◌+◌, ◌<◌, ◌≡◌, refl, arith, Bool, true, false, Option, none, some, List, [], ◌∷◌,
  ◌++◌, ◌&&◌, not, if◌then◌else◌, ltb, ◌==◌, set, length, ap, ◌∙◌, sym, length-set, get_or-set_ne,
  ℕ_discrete, ==_refl, ==_ne,
}
use c_wrapper.FixedFunction.{
  FixedFunction, empty, Event, constructs, destroys, construct, invoke, reset, move_from, assign,
  Op, makes, assigns, resets, invokes, at, step,
}

-- An object holds a callable exactly when its pointers are set.
abbrev pub is_valid : FixedFunction → Bool
is_valid x =
    if x.invoker
    then x.destructor && x.mover && (elim x.storage [ none ↦ false | some f ↦ true ])
    else not x.destructor && not x.mover && (elim x.storage [ none ↦ true | some f ↦ false ])

abbrev pub all_valid : List FixedFunction → Bool
all_valid [] = true
all_valid (x ∷ xs) = is_valid x && all_valid xs

-- How often the callable lives in an object.
abbrev pub holds : ℕ → Option ℕ → ℕ
holds f none = 0
holds f (some g) = if f == g then 1 else 0

abbrev pub held : ℕ → List FixedFunction → ℕ
held f [] = 0
held f (x ∷ xs) = holds f x.storage + held f xs

abbrev pub is_made : ℕ → Event → ℕ
is_made f (constructs g) = if f == g then 1 else 0
is_made f _ = 0

abbrev pub is_ended : ℕ → Event → ℕ
is_ended f (destroys g) = if f == g then 1 else 0
is_ended f _ = 0

-- How often the callable was constructed.
abbrev pub made : ℕ → List Event → ℕ
made f [] = 0
made f (e ∷ es) = is_made f e + made f es

-- How often it was destroyed at the end of its life; a move's own destruction goes with the move.
abbrev pub ended : ℕ → List Event → ℕ
ended f [] = 0
ended f (e ∷ es) = is_ended f e + ended f es

pub made-append : (f : ℕ) (es ds : List Event) → made f (es ++ ds) ≡ made f es + made f ds
made-append f [] ds = omega arith
made-append f (e ∷ es) ds = omega (arith, made-append f es ds)

pub ended-append : (f : ℕ) (es ds : List Event) → ended f (es ++ ds) ≡ ended f es + ended f ds
ended-append f [] ds = omega arith
ended-append f (e ∷ es) ds = omega (arith, ended-append f es ds)

-- The object that is written gives way to the new one.
held-set :
    (f i : ℕ) (x : FixedFunction) (xs : List FixedFunction)
    → i < length xs
    → held f (set xs i x) + holds f (at xs i).storage ≡ held f xs + holds f x.storage
held-set f i x [] h = absurd (omega arith)
held-set f zero x (y ∷ xs) h = omega arith
held-set f (suc i) x (y ∷ xs) h = omega (arith, held-set f i x xs (omega arith))

all_valid-set :
    (i : ℕ) (x : FixedFunction) (xs : List FixedFunction)
    → is_valid x ≡ true
    → all_valid xs ≡ true
    → all_valid (set xs i x) ≡ true
all_valid-set i x [] v h = refl
all_valid-set zero x (y ∷ xs) v h = ground arith
all_valid-set (suc i) x (y ∷ xs) v h = ground (arith, all_valid-set i x xs)

valid_at : (i : ℕ) (xs : List FixedFunction) → all_valid xs ≡ true → is_valid (at xs i) ≡ true
valid_at i [] h = refl
valid_at zero (y ∷ xs) h = ground arith
valid_at (suc i) (y ∷ xs) h = ground (arith, valid_at i xs)

module _ (f : ℕ) (x other : FixedFunction) (v : is_valid x ≡ true) (w : is_valid other ≡ true) where
  pub reset_lem :
      (is_valid (reset x).0 ≡ true)
      × ((reset x).0.storage ≡ none)
      × (made f (reset x).1 ≡ 0)
      × (holds f (reset x).0.storage + ended f (reset x).1 ≡ holds f x.storage)
  unfolding reset
  reset_lem = ground arith

  pub assign_lem :
      let (x', other', events) = assign x other in
      (is_valid x' ≡ true)
      × (is_valid other' ≡ true)
      × (made f events ≡ 0)
      × (holds f x'.storage ≡ holds f other.storage)
      × (holds f other'.storage ≡ 0)
      × (ended f events ≡ holds f x.storage)
  unfolding assign reset move_from
  assign_lem = ground arith

-- The objects that an operation names exist.
abbrev pub is_inside : ℕ → Op → Bool
is_inside n (makes i f) = ltb i n
is_inside n (assigns i j) = ltb i n && ltb j n
is_inside n (resets i) = ltb i n
is_inside n (invokes i) = ltb i n

abbrev pub all_inside : ℕ → List Op → Bool
all_inside n [] = true
all_inside n (o ∷ os) = is_inside n o && all_inside n os

-- What the account says after an operation or a run.
abbrev pub Balanced : ℕ → List FixedFunction → List FixedFunction × List Event → Type 0
Balanced f xs (xs', es) =
    (all_valid xs' ≡ true)
    × (length xs' ≡ length xs)
    × (held f xs' + ended f es ≡ held f xs + made f es)

pub construct_valid : (g : ℕ) → is_valid (construct g).0 ≡ true
unfolding construct
construct_valid g = refl

pub construct_counts :
    (f g : ℕ)
    → (made f (construct g).1 ≡ holds f (construct g).0.storage) × (ended f (construct g).1 ≡ 0)
unfolding construct
construct_counts f g = omega arith

pub makes-Balanced :
    (f i g : ℕ) (xs : List FixedFunction)
    → all_valid xs ≡ true
    → i < length xs
    → Balanced f xs (step (makes i g) xs)
unfolding step
makes-Balanced f i g xs v h =
    let (made_it, events) = construct g in
    let (x, rest, es) = assign (at xs i) made_it in
    let (xv, rv, none_made, got, left, gone) =
      assign_lem f (at xs i) made_it (valid_at i xs v) (construct_valid g) in
    (
      all_valid-set i x xs xv v,
      length-set xs i x,
      omega (
        arith,
        held-set f i x xs h,
        made-append f events (es ++ (reset rest).1),
        made-append f es (reset rest).1,
        ended-append f events (es ++ (reset rest).1),
        ended-append f es (reset rest).1,
        got,
        left,
        gone,
        none_made,
        reset_lem f rest rest rv rv,
        construct_counts f g,
      ),
    )

pub assigns-Balanced :
    (f i j : ℕ) (xs : List FixedFunction)
    → all_valid xs ≡ true
    → i < length xs
    → j < length xs
    → Balanced f xs (step (assigns i j) xs)
unfolding step
assigns-Balanced f i j xs v h k = elim (ℕ_discrete i j) [
  | yes e ↦ rw (e, ==_refl j) (v, refl, refl)
  | no ne ↦
      let (x, other, es) = assign (at xs i) (at xs j) in
      let (xv, ov, none_made, got, left, gone) =
        assign_lem f (at xs i) (at xs j) (valid_at i xs v) (valid_at j xs v) in
      rw (==_ne i j ne) (
        all_valid-set i x (set xs j other) xv (all_valid-set j other xs ov v),
        length-set (set xs j other) i x ∙ length-set xs j other,
        omega (
          arith,
          held-set f i x (set xs j other) (omega (arith, length-set xs j other)),
          held-set f j other xs k,
          ap (λ y. holds f y.storage) (get_or-set_ne xs j i other empty (λ e. ne (sym e))),
          got,
          left,
          gone,
          none_made,
        ),
      )
]

pub resets-Balanced :
    (f i : ℕ) (xs : List FixedFunction)
    → all_valid xs ≡ true
    → i < length xs
    → Balanced f xs (step (resets i) xs)
unfolding step
resets-Balanced f i xs v h =
    let (x, es) = reset (at xs i) in
    let xv = valid_at i xs v in
    let (rv, gone, none_made, account) = reset_lem f (at xs i) (at xs i) xv xv in
    (
      all_valid-set i x xs rv v,
      length-set xs i x,
      omega (arith, held-set f i x xs h, none_made, account),
    )

pub invoke_counts : (f : ℕ) (x : FixedFunction) → (made f (invoke x) ≡ 0) × (ended f (invoke x) ≡ 0)
unfolding invoke
invoke_counts f x = ground arith

pub invokes-Balanced :
    (f i : ℕ) (xs : List FixedFunction) → all_valid xs ≡ true → Balanced f xs (step (invokes i) xs)
unfolding step
invokes-Balanced f i xs v = (v, refl, omega (arith, invoke_counts f (at xs i)))
