-- ===== src/ByteRing/Invariant.antt =====
-- The representation invariant of `ByteRingBuffer`, kept by every operation.
use c_wrapper.Prelude.{
  ℕ, ◌+◌, ◌-◌, ◌%◌, ◌≤◌, ◌<◌, ◌≡◌, arith, min, Bool, Option, none, some, List, length, length-blit,
  length-replicate, take, drop, blit, size_mod, sub_size, ring_grow, ring_shrink, ◌∙◌, ◌==◌,
  Bool-cases, inl, inr,
}
use c_wrapper.ByteRing.{
  ByteRingBuffer, init, write_bytes, write_some, write, drop_front, read, peek_at,
}

-- Twice the capacity fits `size_t`: no index sum of the code wraps.
pub record IsValid (cap : ℕ) (r : ByteRingBuffer) : Type 0 where
  pub positive : 0 < cap
  pub small : cap + cap < size_mod
  pub storage : length r.bytes ≡ cap
  pub fits : r.size ≤ cap
  pub front_in : r.front < cap
  pub rear_in : r.rear < cap
  pub linked : r.rear ≡ (r.front + r.size) % cap

pub init-IsValid : (cap : ℕ) → 0 < cap → cap + cap < size_mod → IsValid cap (init cap)
unfolding init
init-IsValid cap pos small = record {
  positive = pos;
  small = small;
  storage = length-replicate cap 0;
  fits = omega arith;
  front_in = pos;
  rear_in = pos;
  linked = omega arith;
}

pub length-write_bytes :
    (cap : ℕ) (r : ByteRingBuffer) (buf : List ℕ) (n : ℕ)
    → length (write_bytes cap r buf n) ≡ length r.bytes
unfolding write_bytes
length-write_bytes cap r buf n =
    let k = min n (sub_size cap r.rear) in
    ground (
      arith,
      length-blit r.bytes r.rear (take k buf),
      length-blit (blit r.bytes r.rear (take k buf)) 0 (take (n - k) (drop k buf)),
    )

write_some-IsValid :
    {cap : ℕ} {r : ByteRingBuffer} (buf : List ℕ) (n : ℕ)
    → IsValid cap r
    → n ≤ cap - r.size
    → IsValid cap (write_some cap r buf n).0
unfolding write_some
write_some-IsValid {cap} {r} buf n v h = elim (Bool-cases (n == 0)) [
  | inl nothing ↦ rw (nothing, write_some) v
  | inr something ↦
      rw (something, write_some)
        (record {
          positive = v.positive;
          small = v.small;
          storage = length-write_bytes cap r buf n ∙ v.storage;
          fits = omega arith;
          front_in = v.front_in;
          rear_in = omega arith;
          linked = ring_grow r.front r.size r.rear n cap v.linked (omega arith) (omega arith);
        })
]

pub write-IsValid :
    {cap : ℕ} {r : ByteRingBuffer} (buf : Option (List ℕ)) (len : ℕ)
    → IsValid cap r
    → IsValid cap (write cap r buf len).0
unfolding write
write-IsValid none len v = v
write-IsValid {cap} {r} (some buf) len v =
    let step = write_some-IsValid buf (min len (sub_size cap r.size)) v (omega arith) in
    ground arith

pub drop_front-IsValid :
    {cap : ℕ} {r : ByteRingBuffer} (n : ℕ) → IsValid cap r → IsValid cap (drop_front cap r n).0
unfolding drop_front
drop_front-IsValid {cap} {r} n v = ground (arith, ring_shrink r.front r.size n cap)

pub read-IsValid :
    {cap : ℕ} {r : ByteRingBuffer} (given : Bool) (len : ℕ)
    → IsValid cap r
    → IsValid cap (read cap r given len).0
unfolding read
read-IsValid {cap} {r} given len v = ground (arith, drop_front-IsValid (peek_at cap r 0 len).0 v)
