-- ===== src/CondVar.antt =====
-- common/CondVar.h: the waits of `CondVar`. `pthread_cond_wait` and `pthread_cond_timedwait` are
-- calls of the system: a wait is given the list of their ends, each with the state that the caller
-- finds under the mutex and whether the call timed out. Times are milliseconds.
pub mod Waits
mod Tests
use c_wrapper.Prelude.{
  ℕ, ◌+◌, ◌*◌, ◌/◌, ◌%◌, ◌^◌, Bool, true, false, Option, none, some, List, [], ◌∷◌, not,
  if◌then◌else◌, ◌==◌, ◌&&◌,
}
use c_wrapper.Mutex.{abort_if}

-- `CondVar()`: whether it returns, given the results of `pthread_condattr_init`,
-- `pthread_condattr_setclock`, `pthread_cond_init` and `pthread_condattr_destroy`.
pub construct : (attr : ℕ) → (clock : ℕ) → (rc : ℕ) → (destroyed : ℕ) → Bool
construct attr clock rc destroyed =
    abort_if (not (attr == 0))
    && abort_if (not (clock == 0))
    && abort_if (not (rc == 0))
    && abort_if (not (destroyed == 0))

-- `wait(mutex)`, `signal` and `broadcast`: whether they return.
pub returns : (rc : ℕ) → Bool
returns rc = abort_if (not (rc == 0))

-- `waitUntil`, given the number ETIMEDOUT and the result of `pthread_cond_timedwait`; none where it
-- aborts.
pub wait_until_result : (etimedout : ℕ) → (rc : ℕ) → Option Bool
wait_until_result etimedout rc =
    if rc == 0 then some true else if rc == etimedout then some false else none

-- `expireTime`, from the tick count.
pub expire_time : ℕ → ℕ → ℕ
expire_time now timeout_ms = (now + timeout_ms) % 2 ^ 64

-- The `timespec` of `waitUntil`: `tv_sec` and `tv_nsec`.
pub timespec_of : ℕ → ℕ × ℕ
timespec_of expire_ms = (expire_ms / 1000, expire_ms % 1000 * 1000000)

-- How one call of the system ends.
pub record WaitEnd {ℓ} (S : Type ℓ) : Type ℓ where
  pub found : S
  pub timed_out : Bool

module _ {ℓ} {S : Type ℓ} (pred : S → Bool) where
  -- `wait(mutex, pred)`: the state that it leaves with, or none while it waits.
  pub wait : S → List (WaitEnd S) → Option S
  wait s [] = if pred s then some s else none
  wait s (w ∷ ws) = let rest = wait w.found ws in if pred s then some s else rest

  -- The loop of `wait(mutex, timeoutMs, pred)` until the deadline.
  pub wait_until : S → List (WaitEnd S) → Option (S × Bool)
  wait_until s [] = if pred s then some (s, true) else none
  wait_until s (w ∷ ws) =
      let rest = wait_until w.found ws in
      if pred s then some (s, true) else if w.timed_out then some (w.found, pred w.found) else rest

  with_true : Option S → Option (S × Bool)
  with_true none = none
  with_true (some s) = some (s, true)

  -- `wait(mutex, timeoutMs, pred)`; `negative` says that `timeoutMs < 0`.
  pub wait_for : (negative : Bool) → S → List (WaitEnd S) → Option (S × Bool)
  unfolding with_true
  wait_for negative s ws = if negative then with_true (wait s ws) else wait_until s ws
