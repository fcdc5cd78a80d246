-- ===== src/ByteRing/Peek.antt =====
-- What `_peek` copies out, and what `_drop` leaves, of the stream of bytes that the ring holds.
use c_wrapper.Prelude.{
  ℕ, ◌+◌, ◌-◌, ◌%◌, ◌≤◌, ◌<◌, ◌≡◌, refl, arith, min, true, false, List, [], ◌++◌, length, take,
  drop, get_or, tabulate, tabulate-ext, tabulate-append, take-eq-tabulate, take-tabulate,
  drop-tabulate, take-drop-eq-tabulate, add_size, sub_size, wrap_add, sym, ◌∙◌, ap, ap₂, dec_lt,
  lt→ltb, ltb_of_le, ◌⊎◌, wrap_below, wrap_past, size_mod,
}
use c_wrapper.ByteRing.{ByteRingBuffer, peek_at, peek_bytes, drop_front}
use c_wrapper.ByteRing.Invariant.{IsValid}
use c_wrapper.ByteRing.Write.{slot, contents}

module _ (cap s n : ℕ) (bytes : List ℕ) where
  abbrev cell : ℕ → ℕ
  cell i = get_or bytes ((s + i) % cap) 0

  module _ (small : cap < size_mod) (storage : length bytes ≡ cap) (inside : s < cap)
      (few : n ≤ cap) where
    straight : s + n ≤ cap → take n (drop s bytes) ≡ tabulate n cell
    straight fits =
        take-drop-eq-tabulate n s bytes 0 (omega (arith, storage))
        ∙ tabulate-ext n _ cell
            (λ i p. ap (λ k. get_or bytes k 0) (sym (wrap_below s i cap (omega arith))))

    round :
        (k : ℕ)
        → k ≡ cap - s
        → k < n
        → take k (drop s bytes) ++ take (n - k) bytes ≡ tabulate n cell
    round k e more =
        ap₂ ◌++◌
          (take-drop-eq-tabulate k s bytes 0 (omega (arith, storage))
            ∙ tabulate-ext k _ cell
                (λ i p. ap (λ j. get_or bytes j 0) (sym (wrap_below s i cap (omega arith)))))
          (take-eq-tabulate (n - k) bytes 0 (omega (arith, storage))
            ∙ tabulate-ext (n - k) _ (λ i. cell (k + i))
                (λ i p.
                  ap (λ j. get_or bytes j 0) {x = i}
                    (omega (arith, wrap_past s (k + i) cap inside (omega arith) (omega arith)))))
        ∙ sym (tabulate-append k (n - k) cell)
        ∙ ap (λ j. tabulate j cell) {x = k + (n - k)} {y = n} (omega arith)

    peek_bytes_lem : peek_bytes cap s n bytes ≡ tabulate n cell
    unfolding peek_bytes
    peek_bytes_lem = elim (dec_lt (min n (sub_size cap s)) n) [
      | yes more ↦ rw (lt→ltb _ _ more) (round (min n (sub_size cap s)) (omega arith) more)
      | no all ↦
          let e : min n (sub_size cap s) ≡ n = omega arith in
          rw (e, ltb_of_le n n (omega arith)) (straight (omega arith))
    ]

module _ {cap : ℕ} {r : ByteRingBuffer} (v : IsValid cap r) where
  -- The stretch of the stream that `peek_bytes` is asked for.
  stretch :
      (offset len : ℕ)
      → take len (drop offset (contents cap r))
        ≡ tabulate (min len (r.size - offset)) (λ i. slot cap r (offset + i))
  stretch offset len =
      ap (take len) (drop-tabulate offset r.size (slot cap r))
      ∙ take-tabulate len (r.size - offset) (λ i. slot cap r (offset + i))

  peek_bytes-stretch :
      (offset len : ℕ)
      → offset < r.size
      → peek_bytes cap (add_size r.front offset % cap) (min len (sub_size r.size offset)) r.bytes
        ≡ take len (drop offset (contents cap r))
  peek_bytes-stretch offset len inside =
      peek_bytes_lem cap (add_size r.front offset % cap) (min len (sub_size r.size offset)) r.bytes
        (omega arith) v.storage (omega arith) (omega arith)
      ∙ ap (λ k. tabulate k (cell cap (add_size r.front offset % cap) len r.bytes))
          {x = min len (sub_size r.size offset)} {y = min len (r.size - offset)} (omega arith)
      ∙ tabulate-ext (min len (r.size - offset)) _ (λ i. slot cap r (offset + i))
          (λ i p.
            ap (λ k. get_or r.bytes k 0)
              (ap (λ k. (k % cap + i) % cap) {x = add_size r.front offset} {y = r.front + offset}
                  (omega arith)
                ∙ wrap_add r.front offset i cap))
      ∙ sym (stretch offset len)

  nothing-there :
      (offset len : ℕ)
      → (r.size ≤ offset) ⊎ (len ≡ 0)
      → take len (drop offset (contents cap r)) ≡ []
  nothing-there offset len h =
      stretch offset len
      ∙ ap (λ k. tabulate k (λ i. slot cap r (offset + i))) {x = min len (r.size - offset)} {y = 0}
          (omega arith)

  -- `_peek` copies the bytes from `offset` on, `len` of them or as many as there are, and returns
  -- their number.
  pub peek_at_lem :
      (offset len : ℕ)
      → let (n, out) = peek_at cap r offset len in
        (n ≡ min len (r.size - offset)) × (out ≡ take len (drop offset (contents cap r)))
  unfolding peek_at
  peek_at_lem offset len = ground (arith, peek_bytes-stretch offset len, nothing-there offset len)

  contents-drop :
      (n : ℕ)
      → n ≤ r.size
      → tabulate (sub_size r.size n) (λ i. get_or r.bytes ((add_size r.front n % cap + i) % cap) 0)
        ≡ drop n (contents cap r)
  contents-drop n few =
      ap (λ k. tabulate k (cell cap (add_size r.front n % cap) n r.bytes)) {x = sub_size r.size n}
        {y = r.size - n} (omega arith)
      ∙ tabulate-ext (r.size - n) _ (λ i. slot cap r (n + i))
          (λ i p.
            ap (λ k. get_or r.bytes k 0)
              (ap (λ k. (k % cap + i) % cap) {x = add_size r.front n} {y = r.front + n}
                  (omega arith)
                ∙ wrap_add r.front n i cap))
      ∙ sym (drop-tabulate n r.size (slot cap r))

  -- `drop` removes the first `n` bytes of the stream; when the stream is shorter it fails and
  -- changes nothing.
  pub drop_front_lem :
      (n : ℕ)
      → (n ≤ r.size
          → ((drop_front cap r n).1 ≡ true)
            × (contents cap (drop_front cap r n).0 ≡ drop n (contents cap r)))
        × (r.size < n → drop_front cap r n ≡ (r, false))
  unfolding drop_front
  drop_front_lem n = (
    λ few. rw (ltb_of_le n r.size few) (refl, contents-drop n few),
    λ many. rw (lt→ltb r.size n many),
  )
