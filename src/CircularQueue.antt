-- ===== src/CircularQueue.antt =====
-- common/CircularQueue.h: a queue of at most `cap` elements in a `std::array`.
-- `d` is the value of a default-initialised slot, `moved` what a `std::move` leaves behind.
pub mod Fifo
pub mod Invariant
pub mod Refine
mod Tests
use c_wrapper.Prelude.{
  ℕ, ◌-◌, ◌%◌, Bool, true, false, Option, none, some, List, if◌then◌else◌, leb, ◌==◌, get_or, set,
  replicate, add_size, sub_size,
}

-- `mBuffer`, `mSize`, `mFront`, `mRear`.
pub record CircularQueue {ℓ} (A : Type ℓ) : Type ℓ where
  pub buffer : List A
  pub size : ℕ
  pub front : ℕ
  pub rear : ℕ

module _ {ℓ} {A : Type ℓ} (cap : ℕ) (d : A) where
  unfoldable pub init : CircularQueue A
  init = record { buffer = replicate cap d; size = 0; front = 0; rear = 0 }

module _ {ℓ} {A : Type ℓ} (cap : ℕ) where
  abbrev pub is_full : CircularQueue A → Bool
  is_full q = leb cap q.size

  abbrev pub is_empty : CircularQueue A → Bool
  is_empty q = q.size == 0

  -- `bool put(T t)`.
  pub put : CircularQueue A → A → CircularQueue A × Bool
  put q t = if is_full q then (q, false) else (
    record q {
      buffer = set q.buffer q.rear t;
      size = add_size q.size 1;
      rear = add_size q.rear 1 % cap;
    },
    true,
  )

-- The slot that `mFront` names.
abbrev pub front_slot {ℓ} : {A : Type ℓ} → A → CircularQueue A → A
front_slot d q = get_or q.buffer q.front d

module _ {ℓ} {A : Type ℓ} (cap : ℕ) (d : A) (moved : A → A) where
  -- `bool get(T* t)`: `out` says whether `t` is non-null, and the option is what is stored to `*t`.
  pub get : CircularQueue A → Bool → CircularQueue A × Bool × Option A
  get q out = if is_empty cap q then (q, false, none) else (
    record q {
      buffer = if out then set q.buffer q.front (moved (front_slot d q)) else q.buffer;
      size = sub_size q.size 1;
      front = add_size q.front 1 % cap;
    },
    true,
    if out then some (front_slot d q) else none,
  )
