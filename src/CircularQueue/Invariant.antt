-- ===== src/CircularQueue/Invariant.antt =====
-- The representation invariant of `CircularQueue`, kept by every operation.
use c_wrapper.Prelude.{
  ℕ, ◌+◌, ◌%◌, ◌≤◌, ◌<◌, ◌≡◌, refl, arith, Bool, length, length-set, length-replicate,
  if◌then◌else◌, size_mod, ring_grow, ring_shrink, sym, Bool-cases, inl, inr, true, false, set, leb,
  ◌==◌, ◌∙◌,
}
use c_wrapper.CircularQueue.{CircularQueue, init, put, get, front_slot}

-- The array is full-size, the indices lie in it, and `mRear` is `mSize` places past `mFront`.
pub record IsValid {ℓ} {A : Type ℓ} (cap : ℕ) (q : CircularQueue A) : Type 0 where
  pub positive : 0 < cap
  pub small : cap < size_mod
  pub storage : length q.buffer ≡ cap
  pub fits : q.size ≤ cap
  pub front_in : q.front < cap
  pub rear_in : q.rear < cap
  pub linked : q.rear ≡ (q.front + q.size) % cap

pub init-IsValid {ℓ} :
    {A : Type ℓ} (cap : ℕ) (d : A) → 0 < cap → cap < size_mod → IsValid cap (init cap d)
unfolding init
init-IsValid cap d pos small = record {
  positive = pos;
  small = small;
  storage = length-replicate cap d;
  fits = omega arith;
  front_in = pos;
  rear_in = pos;
  linked = omega arith;
}

pub put-IsValid {ℓ} :
    {A : Type ℓ} {cap : ℕ} {q : CircularQueue A} (t : A)
    → IsValid cap q
    → IsValid cap (put cap q t).0
unfolding put
put-IsValid {cap} {q} t v = elim (Bool-cases (leb cap q.size)) [
  | inl full ↦ rw (full, put) v
  | inr room ↦
      rw (room, put)
        (record {
          positive = v.positive;
          small = v.small;
          storage = length-set q.buffer q.rear t ∙ v.storage;
          fits = ground arith;
          front_in = v.front_in;
          rear_in = omega arith;
          linked = ring_grow q.front q.size q.rear 1 cap v.linked (omega arith) (ground arith);
        })
]

length-kept {ℓ} :
    {A : Type ℓ} (q : CircularQueue A) (d : A) (moved : A → A) (out : Bool)
    → length (if out then set q.buffer q.front (moved (front_slot d q)) else q.buffer)
      ≡ length q.buffer
length-kept q d moved true = length-set q.buffer q.front _
length-kept q d moved false = refl

pub get-IsValid {ℓ} :
    {A : Type ℓ} {cap : ℕ} {q : CircularQueue A} (d : A) (moved : A → A) (out : Bool)
    → IsValid cap q
    → IsValid cap (get cap d moved q out).0
unfolding get
get-IsValid {cap} {q} d moved out v = elim (Bool-cases (q.size == 0)) [
  | inl none_left ↦ rw (none_left, get) v
  | inr some_left ↦
      rw (some_left, get)
        (record {
          positive = v.positive;
          small = v.small;
          storage = length-kept q d moved out ∙ v.storage;
          fits = ground arith;
          front_in = omega arith;
          rear_in = v.rear_in;
          linked =
              v.linked
              ∙ sym (ring_shrink q.front q.size 1 cap (ground arith) (omega arith) (omega arith));
        })
]
