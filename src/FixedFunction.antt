-- ===== src/FixedFunction.antt =====
-- common/FixedFunction.h: a callable of at most 32 bytes in the object's own storage. A callable is
-- named by a number, and a function of the class gives, with the new object, what it does to
-- callables.
pub mod Ownership
pub mod Lifetime
mod Tests
use c_wrapper.Prelude.{
  ℕ, Bool, true, false, Option, none, some, List, [], ◌∷◌, ◌++◌, if◌then◌else◌, ◌==◌, get_or, set,
}

-- `mStorage` holds a callable or none lives there; the pointers `mFnInvoker`, `mFnDestructor` and
-- `mFnMover` are those of the callable's type, or null.
pub record FixedFunction : Type 0 where
  pub storage : Option ℕ
  pub invoker : Bool
  pub destructor : Bool
  pub mover : Bool

-- `FixedFunction()`.
abbrev pub empty : FixedFunction
empty = record { storage = none; invoker = false; destructor = false; mover = false }

-- What happens to a callable: it is constructed, called, moved to another object's storage (with the
-- destruction of what is left), or destroyed.
pub data Event : Type 0 where
  constructs calls moves destroys : ℕ → Event

abbrev pub at_storage : (ℕ → Event) → Option ℕ → List Event
at_storage e none = []
at_storage e (some f) = e f ∷ []

-- `FixedFunction(Func&&)`.
unfoldable pub construct : ℕ → FixedFunction × List Event
construct f = (
  record { storage = some f; invoker = true; destructor = true; mover = true },
  constructs f ∷ [],
)

-- `invoke`, `operator()`.
unfoldable pub invoke : FixedFunction → List Event
invoke x = if x.invoker then at_storage calls x.storage else []

-- `operator bool`.
abbrev pub is_set : FixedFunction → Bool
is_set x = x.invoker

-- `reset`, the destructor.
unfoldable pub reset : FixedFunction → FixedFunction × List Event
reset x = if x.destructor then (empty, at_storage destroys x.storage) else (x, [])

-- `move_from`: this object, the other one, and what happens. The storage of this one is written over.
unfoldable pub move_from :
    FixedFunction → FixedFunction → FixedFunction × FixedFunction × List Event
move_from x other =
    if other.mover
    then (
      record {
        storage = other.storage;
        invoker = other.invoker;
        destructor = other.destructor;
        mover = other.mover;
      },
      empty,
      at_storage moves other.storage,
    )
    else (x, other, [])

-- `operator=` between two objects.
unfoldable pub assign : FixedFunction → FixedFunction → FixedFunction × FixedFunction × List Event
assign x other =
    let (x', ended) = reset x in
    let (x'', other', moved) = move_from x' other in (x'', other', ended ++ moved)

-- What a program does with its objects: it stores a new callable in an empty object, moves the object
-- `j` to the object `i`, resets or calls one.
pub data Op : Type 0 where
  makes : (i : ℕ) → (f : ℕ) → Op
  assigns : (i : ℕ) → (j : ℕ) → Op
  resets : (i : ℕ) → Op
  invokes : (i : ℕ) → Op

abbrev pub at : List FixedFunction → ℕ → FixedFunction
at xs i = get_or xs i empty

-- The assignment of a temporary, `x = FixedFunction(f)`; and `operator=`, which does nothing to
-- itself.
pub step : Op → List FixedFunction → List FixedFunction × List Event
unfolding construct invoke reset move_from assign
step (makes i f) xs =
    let (made, made_it) = construct f in
    let (x, rest, events) = assign (at xs i) made in
    (set xs i x, made_it ++ events ++ (reset rest).1)
step (assigns i j) xs =
    if i == j
    then (xs, [])
    else let (x, other, events) = assign (at xs i) (at xs j) in (set (set xs j other) i x, events)
step (resets i) xs = let (x, events) = reset (at xs i) in (set xs i x, events)
step (invokes i) xs = (xs, invoke (at xs i))

pub run : List Op → List FixedFunction → List FixedFunction × List Event
run [] xs = (xs, [])
run (o ∷ os) xs =
    let (xs', events) = step o xs in let (xs'', later) = run os xs' in (xs'', events ++ later)
