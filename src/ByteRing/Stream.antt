-- ===== src/ByteRing/Stream.antt =====
-- `read` and `peek` on the stream of bytes, and what comes out after what went in.
use c_wrapper.Prelude.{
  ℕ, ◌+◌, ◌≤◌, ◌≡◌, refl, arith, min, true, some, List, [], ◌++◌, length, take, drop,
  take-append-drop, drop-min, length-tabulate,
}
use c_wrapper.ByteRing.{ByteRingBuffer, write, write_some, peek_at, read, peek}
use c_wrapper.ByteRing.Invariant.{IsValid, write-IsValid}
use c_wrapper.ByteRing.Write.{contents, write_lem}
use c_wrapper.ByteRing.Peek.{peek_at_lem, drop_front_lem}

take-nothing : (n : ℕ) (xs : List ℕ) → n ≡ 0 → (take n xs ≡ []) × (drop n xs ≡ xs)
take-nothing n xs e = rw e (refl, refl)

module _ {cap : ℕ} {r : ByteRingBuffer} (v : IsValid cap r) (len : ℕ) where
  length-contents : length (contents cap r) ≡ r.size
  length-contents = length-tabulate r.size _

  -- `peek` copies the first `len` bytes of the stream, or all of a shorter one, and returns how many.
  pub peek_lem :
      let (n, out) = peek cap r true len in (n ≡ min len r.size) × (out ≡ take len (contents cap r))
  unfolding peek
  peek_lem = ground (arith, peek_at_lem v 0 len, take-nothing len (contents cap r))

  -- `read` copies the first `len` bytes of the stream, or all of a shorter one, returns how many, and
  -- removes exactly those.
  pub read_lem :
      let (r', n, out) = read cap r true len in
      (n ≡ min len r.size)
      × (out ≡ take len (contents cap r))
      × (contents cap r' ≡ drop len (contents cap r))
  unfolding read
  read_lem = ground (
    arith,
    peek_at_lem v 0 len,
    take-nothing len (contents cap r),
    (drop_front_lem v (peek_at cap r 0 len).0).0,
    length-contents,
    drop-min len (peek_at cap r 0 len).0 (contents cap r),
    take-nothing (peek_at cap r 0 len).0 (contents cap r),
  )

module _ {cap : ℕ} {r : ByteRingBuffer} (v : IsValid cap r) where
  size-write :
      (buf : List ℕ) (len : ℕ) → (write cap r (some buf) len).0.size ≡ min cap (r.size + len)
  unfolding write write_some
  size-write buf len = ground arith

  -- What is read, then what is left, is what was there, then as much of `buf` as `write` took: the
  -- ring neither loses, invents nor reorders a byte.
  pub read-write :
      (buf : List ℕ) (len max : ℕ)
      → len ≤ length buf
      → let (r', n) = write cap r (some buf) len in
        let (r'', m, out) = read cap r' true max in
        (out ++ contents cap r'' ≡ contents cap r ++ take n buf)
        × (m ≡ min max (min cap (r.size + len)))
  read-write buf len max given =
      let w = write-IsValid {r = r} (some buf) len v in
      let wrote = write_lem {r = r} buf len v given in
      let got = read_lem w max in
      (
        rw (got.1, got.2, take-append-drop) wrote.1,
        omega (arith, got.0, size-write buf len, v.fits),
      )
