-- ===== src/Mutex.antt =====
-- common/Mutex.h: the constructors of the two mutexes, given what the calls of pthread return, and
-- `Lock`, whose destructor runs wherever its block is left. Mutexes are named by numbers.
pub mod Scopes
mod Tests
use c_wrapper.Prelude.{ℕ, Bool, true, false, List, [], ◌∷◌, ◌++◌, if◌then◌else◌, ◌==◌, ◌&&◌, not}

-- Whether `ABORT_IF` lets the program go on.
abbrev pub abort_if : Bool → Bool
abort_if expr = not expr

-- `Mutex()`: whether it returns, given the result of `pthread_mutex_init`.
pub construct : (rc : ℕ) → Bool
construct rc = abort_if (rc == 0)

-- `RecursiveMutex()`, given those of `pthread_mutexattr_init`, `pthread_mutexattr_settype` and
-- `pthread_mutex_init`.
pub construct_recursive : (attr : ℕ) → (type_rc : ℕ) → (rc : ℕ) → Bool
construct_recursive attr type_rc rc =
    abort_if (not (attr == 0)) && abort_if (not (type_rc == 0)) && abort_if (not (rc == 0))

-- A call that a block makes.
pub data Call : Type 0 where
  locks unlocks : (m : ℕ) → Call
  does : (action : ℕ) → Call

-- A block of a method: its end, a `return`, an action and what follows, a `Lock` on a mutex for the
-- block inside and what follows that block.
pub data Block : Type 0 where
  ends returns : Block
  acts : (action : ℕ) → (rest : Block) → Block
  scoped : (m : ℕ) → (inside : Block) → (rest : Block) → Block

-- The calls of a block in order, and whether it returns from the method.
pub execute : Block → List Call × Bool
execute ends = ([], false)
execute returns = ([], true)
execute (acts a rest) = let (calls, left) = execute rest in (does a ∷ calls, left)
execute (scoped m inside rest) =
    let (within, left) = execute inside in
    let (later, left') = execute rest in
    if left
    then (locks m ∷ (within ++ unlocks m ∷ []), true)
    else (locks m ∷ (within ++ unlocks m ∷ later), left')
