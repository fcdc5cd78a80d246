-- ===== src/SyncQueue.antt =====
-- common/SyncQueue.h: `SyncQueue<T, Capacity>`, the circular queue with blocking calls and an end of
-- stream. A call's waits are a list: what the queue is when the wait is over, and whether the wait
-- ended before its time.
pub mod Refine
mod Tests
use c_wrapper.Prelude.{
  ℕ, zero, suc, Bool, true, false, Option, none, some, List, [], ◌∷◌, ◌&&◌, ◌||◌, not,
  if◌then◌else◌,
}
use c_wrapper.CircularQueue.{CircularQueue, is_full, is_empty}
use c_wrapper.CircularQueue

pub record SyncQueue {ℓ} (A : Type ℓ) : Type ℓ where
  pub queue : CircularQueue A
  pub eos : Bool

-- INFINITE, 0, and any other time.
pub data Timeout : Type 0 where
  infinite at_once within : Timeout

pub record Wake {ℓ} (A : Type ℓ) : Type ℓ where
  pub found : SyncQueue A
  pub in_time : Bool

module _ {ℓ} {A : Type ℓ} (blocked : SyncQueue A → Bool) where
  -- The loop of `put` and of `get`: the queue that it leaves with and whether it leaves by its
  -- condition, or none while the call still waits.
  pub awaits : Timeout → SyncQueue A → List (Wake A) → Option (SyncQueue A × Bool)
  awaits at_once s ws = some (s, not (blocked s))
  awaits infinite s [] = if blocked s then none else some (s, true)
  awaits infinite s (w ∷ ws) =
      let rest = awaits infinite w.found ws in if blocked s then rest else some (s, true)
  awaits within s [] = if blocked s then none else some (s, true)
  awaits within s (w ∷ ws) =
      let rest = awaits within w.found ws in
      if not (blocked s) then some (s, true) else if w.in_time then rest else some (w.found, false)

-- What `mQueue.get` stored, in front of what follows.
abbrev pub append_some {ℓ} : {A : Type ℓ} → Option A → List A → List A
append_some none xs = xs
append_some (some x) xs = x ∷ xs

module _ {ℓ} {A : Type ℓ} (cap : ℕ) (d : A) (moved : A → A) where
  -- `put` after its loop.
  pub put_now : SyncQueue A → A → SyncQueue A × Bool
  put_now s t =
      if is_full cap s.queue
      then (s, false)
      else if s.eos
      then (s, false)
      else (record s { queue = (CircularQueue.put cap s.queue t).0 }, true)

  put_after : A → Option (SyncQueue A × Bool) → Option (SyncQueue A × Bool)
  put_after t none = none
  put_after t (some (s, ready)) = some (if ready then put_now s t else (s, false))

  -- `put`.
  pub put : SyncQueue A → A → Timeout → List (Wake A) → Option (SyncQueue A × Bool)
  unfolding put_after
  put s t timeout ws = put_after t (awaits (λ q. is_full cap q.queue && not q.eos) timeout s ws)

  -- `get` after its loop.
  pub get_now : SyncQueue A → Bool → SyncQueue A × Bool × Option A
  get_now s out =
      if is_empty cap s.queue
      then (s, false, none)
      else if s.eos
      then (s, false, none)
      else let (q, done, t) = CircularQueue.get cap d moved s.queue out in
        (record s { queue = q }, true, t)

  get_after : Bool → Option (SyncQueue A × Bool) → Option (SyncQueue A × Bool × Option A)
  get_after out none = none
  get_after out (some (s, ready)) = some (if ready then get_now s out else (s, false, none))

  -- `get`.
  pub get : SyncQueue A → Bool → Timeout → List (Wake A) → Option (SyncQueue A × Bool × Option A)
  unfolding get_after
  get s out timeout ws =
      get_after out (awaits (λ q. is_empty cap q.queue && not q.eos) timeout s ws)

  -- `putForce`: the queue, what is returned (nothing where the function ends without a return), and
  -- the element that is disposed of.
  pub put_force : SyncQueue A → A → SyncQueue A × Option Bool × Option A
  put_force s t =
      if s.eos
      then (s, some false, none)
      else let (q, done, old) =
          if is_full cap s.queue
          then CircularQueue.get cap d moved s.queue true
          else (s.queue, false, none) in
        (record s { queue = (CircularQueue.put cap q t).0 }, none, old)

  -- The loop of `flush` when no other thread comes between, on fuel, and what is disposed of.
  pub flush : ℕ → SyncQueue A → SyncQueue A × List A
  flush zero s = (s, [])
  flush (suc fuel) s =
      let (q, done, old) = CircularQueue.get cap d moved s.queue true in
      let (s', rest) = flush fuel (record s { queue = q }) in
      if is_empty cap s.queue then (s, []) else (s', append_some old rest)

-- `setEOS`.
pub set_eos {ℓ} : {A : Type ℓ} → Bool → SyncQueue A → SyncQueue A
set_eos b s = record s { eos = b }
