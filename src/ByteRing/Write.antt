-- ===== src/ByteRing/Write.antt =====
-- `write` appends to the stream of bytes that the ring holds.
use c_wrapper.Prelude.{
  ℕ, ◌+◌, ◌-◌, ◌%◌, ◌≤◌, ◌<◌, ◌≡◌, arith, min, some, List, ◌++◌, length, length-blit, length-take,
  length-drop, ltb_of_le, lt→ltb, take, drop, blit, get_or, get_or-blit, get_or-blit_outside,
  get_or-take, get_or-drop, tabulate, tabulate-ext, tabulate-append, take-eq-tabulate, add_size,
  sub_size, wrap_cases, wrap_add, sym, ◌∙◌, ap, ap₂, inl, inr, dec_lt, ◌⊎◌,
}
use mathlib.Core.List.{append-nil}
use c_wrapper.ByteRing.{ByteRingBuffer, write_bytes, write_some, write}
use c_wrapper.ByteRing.Invariant.{IsValid}

module _ (cap : ℕ) where
  -- the byte `i` places behind the front
  abbrev pub slot : ByteRingBuffer → ℕ → ℕ
  slot r i = get_or r.bytes ((r.front + i) % cap) 0

  -- The bytes that the ring holds, oldest first.
  abbrev pub contents : ByteRingBuffer → List ℕ
  contents r = tabulate r.size (slot r)

-- The two copies of `write`, the second one empty if the first takes all.
two_copies : (cap : ℕ) (r : ByteRingBuffer) (buf : List ℕ) (n : ℕ) → List ℕ
two_copies cap r buf n =
    let k = min n (sub_size cap r.rear) in
    blit (blit r.bytes r.rear (take k buf)) 0 (take (n - k) (drop k buf))

write_bytes-two_copies :
    (cap : ℕ) (r : ByteRingBuffer) (buf : List ℕ) (n : ℕ)
    → write_bytes cap r buf n ≡ two_copies cap r buf n
unfolding write_bytes two_copies
write_bytes-two_copies cap r buf n = elim (dec_lt (min n (sub_size cap r.rear)) n) [
  | yes more ↦ rw (lt→ltb _ _ more)
  | no all ↦
      let k = min n (sub_size cap r.rear) in
      let none_left : n - k ≡ 0 = omega arith in rw (ltb_of_le n k (omega arith), none_left)
]

module _ {cap : ℕ} {r : ByteRingBuffer} (v : IsValid cap r) (buf : List ℕ) (n : ℕ)
    (room : n ≤ cap - r.size) (given : n ≤ length buf) where
  -- A place that holds a byte is written by neither copy.
  old_byte :
      (i : ℕ) → i < r.size → get_or (two_copies cap r buf n) ((r.front + i) % cap) 0 ≡ slot cap r i
  unfolding two_copies
  old_byte i p =
      let k = min n (sub_size cap r.rear) in
      let at = wrap_cases r.front i cap v.front_in (omega arith) in
      let end = wrap_cases r.front r.size cap v.front_in v.fits in
      get_or-blit_outside _ 0 ((r.front + i) % cap) (take (n - k) (drop k buf)) 0 (
        inr (omega (arith, v.linked, at, end, length-take (n - k) (drop k buf), length-drop k buf)))
      ∙ get_or-blit_outside r.bytes r.rear ((r.front + i) % cap) (take k buf) 0 (outside at end)
    where
      outside :
          ((r.front + i < cap) × ((r.front + i) % cap ≡ r.front + i))
            ⊎ ((cap ≤ r.front + i) × ((r.front + i) % cap + cap ≡ r.front + i))
          → ((r.front + r.size < cap) × ((r.front + r.size) % cap ≡ r.front + r.size))
            ⊎ ((cap ≤ r.front + r.size) × ((r.front + r.size) % cap + cap ≡ r.front + r.size))
          → ((r.front + i) % cap < r.rear)
            ⊎ (r.rear + length (take (min n (sub_size cap r.rear)) buf) ≤ (r.front + i) % cap)
      outside _ (inl e) = inl (omega (arith, v.linked))
      outside (inl e) (inr f) =
          inr (omega (arith, v.linked, length-take (min n (sub_size cap r.rear)) buf))
      outside (inr e) (inr f) = inl (omega (arith, v.linked))

  -- The places behind them hold the bytes of `buf`.
  new_byte :
      (i : ℕ)
      → i < n
      → get_or (two_copies cap r buf n) ((r.front + (r.size + i)) % cap) 0 ≡ get_or buf i 0
  unfolding two_copies
  new_byte i p = elim (dec_lt i k) [
    | yes early ↦
        get_or-blit_outside _ 0 j (take (n - k) (drop k buf)) 0
          (inr (omega (arith, at, start, length-take (n - k) (drop k buf), length-drop k buf)))
        ∙ get_or-blit r.bytes r.rear j (take k buf) i 0
            (omega (arith, v.storage, length-take k buf)) (omega (arith, length-take k buf))
            (omega (arith, at, start))
        ∙ get_or-take k buf i 0 early
    | no late ↦
        get_or-blit (blit r.bytes r.rear (take k buf)) 0 j (take (n - k) (drop k buf)) (i - k) 0
          (omega (
            arith,
            v.storage,
            length-blit r.bytes r.rear (take k buf),
            length-take (n - k) (drop k buf),
          ))
          (omega (arith, length-take (n - k) (drop k buf), length-drop k buf))
          (omega (arith, at, start))
        ∙ get_or-take (n - k) (drop k buf) (i - k) 0 (omega arith)
        ∙ get_or-drop k buf (i - k) 0
        ∙ ap (λ x. get_or buf x 0) {x = k + (i - k)} {y = i} (omega arith)
  ]
    where
      k : ℕ
      k = min n (sub_size cap r.rear)

      j : ℕ
      j = (r.front + (r.size + i)) % cap

      -- the place is `i` behind `mRear`
      start : j ≡ (r.rear + i) % cap
      start = sym (wrap_add r.front r.size i cap) ∙ ap (λ x. (x + i) % cap) (sym v.linked)

      at :
          ((r.rear + i < cap) × ((r.rear + i) % cap ≡ r.rear + i))
          ⊎ ((cap ≤ r.rear + i) × ((r.rear + i) % cap + cap ≡ r.rear + i))
      at = wrap_cases r.rear i cap v.rear_in (omega arith)

  contents-written :
      tabulate (add_size r.size n) (λ i. get_or (write_bytes cap r buf n) ((r.front + i) % cap) 0)
      ≡ contents cap r ++ take n buf
  contents-written = rw write_bytes-two_copies (
      ap (λ k. tabulate k cell) {x = add_size r.size n} {y = r.size + n} (omega arith)
      ∙ tabulate-append r.size n cell
      ∙ ap₂ ◌++◌ (tabulate-ext r.size cell (slot cap r) old_byte) (
          tabulate-ext n (λ i. cell (r.size + i)) (λ i. get_or buf i 0) new_byte
          ∙ sym (take-eq-tabulate n buf 0 given)))
    where
      cell : ℕ → ℕ
      cell i = get_or (two_copies cap r buf n) ((r.front + i) % cap) 0

-- `write` takes as many bytes as there is room for, returns their number, and appends exactly those
-- bytes, in order, to the stream; a null buffer and an empty one write nothing.
pub write_lem :
    {cap : ℕ} {r : ByteRingBuffer} (buf : List ℕ) (len : ℕ)
    → IsValid cap r
    → len ≤ length buf
    → let (r', n) = write cap r (some buf) len in
      (n ≡ min len (cap - r.size)) × (contents cap r' ≡ contents cap r ++ take n buf)
unfolding write write_some
write_lem {cap} {r} buf len v given =
    let n = min len (sub_size cap r.size) in
    ground
      (arith, contents-written v buf n (omega arith) (omega arith), append-nil (contents cap r))
