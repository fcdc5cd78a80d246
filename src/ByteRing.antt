-- ===== src/ByteRing.antt =====
-- common/ByteRingBuffer.h: a byte stream of at most `cap` bytes in a `std::array<uint8_t, Capacity>`.
-- Each public call is one critical section of `mLock`, so a call is one step on the state. A caller's
-- buffer is `none` for a null pointer; what a call stores through it is returned as the bytes stored
-- from its start on.
pub mod Invariant
pub mod Write
pub mod Peek
pub mod Stream
pub mod Typed
mod Tests
use Prim.Native.Nat.{bit_or}
use c_wrapper.Prelude.{
  ℕ, zero, suc, ◌+◌, ◌-◌, ◌*◌, ◌%◌, ◌^◌, min, Bool, true, false, ◌||◌, not, Option, none, some,
  List, [], ◌∷◌, ◌++◌, if◌then◌else◌, is_none, ltb, leb, ◌==◌, get_or, take, drop, blit, replicate,
  add_size, sub_size,
}

-- `mData`, `mSize`, `mFront`, `mRear`.
pub record ByteRingBuffer : Type 0 where
  pub bytes : List ℕ
  pub size : ℕ
  pub front : ℕ
  pub rear : ℕ

module _ (cap : ℕ) where
  pub init : ByteRingBuffer
  init = record { bytes = replicate cap 0; size = 0; front = 0; rear = 0 }

  -- The two `memcpy` of `write`, for `can_write` bytes.
  pub write_bytes : ByteRingBuffer → List ℕ → ℕ → List ℕ
  write_bytes r buf can_write =
      let first_part = min can_write (sub_size cap r.rear) in
      let head = blit r.bytes r.rear (take first_part buf) in
      if ltb first_part can_write
      then blit head 0 (take (can_write - first_part) (drop first_part buf))
      else head

  pub write_some : ByteRingBuffer → List ℕ → ℕ → ByteRingBuffer × ℕ
  write_some r buf can_write = if can_write == 0 then (r, 0) else (
    record r {
      bytes = write_bytes r buf can_write;
      rear = add_size r.rear can_write % cap;
      size = add_size r.size can_write;
    },
    can_write,
  )

  -- `size_t write(const uint8_t* buf, size_t len)`.
  pub write : ByteRingBuffer → Option (List ℕ) → ℕ → ByteRingBuffer × ℕ
  write r none len = (r, 0)
  write r (some buf) len =
      if len == 0 then (r, 0) else write_some r buf (min len (sub_size cap r.size))

  -- The bytes that the two `memcpy` of `_peek` copy.
  pub peek_bytes : ℕ → ℕ → List ℕ → List ℕ
  peek_bytes start_idx can_read bytes =
      let first_part = min can_read (sub_size cap start_idx) in
      if ltb first_part can_read
      then take first_part (drop start_idx bytes) ++ take (can_read - first_part) bytes
      else take first_part (drop start_idx bytes)

  -- `size_t _peek(size_t offset, uint8_t* buf, size_t len)`, and the bytes that it copies.
  pub peek_at : ByteRingBuffer → ℕ → ℕ → ℕ × List ℕ
  peek_at r offset len =
      if leb r.size offset || len == 0
      then (0, [])
      else let can_read = min len (sub_size r.size offset) in
        (can_read, peek_bytes (add_size r.front offset % cap) can_read r.bytes)

  -- `bool _drop(size_t size)`, which is `drop` under the lock.
  pub drop_front : ByteRingBuffer → ℕ → ByteRingBuffer × Bool
  drop_front r n =
      if ltb r.size n
      then (r, false)
      else (record r { front = add_size r.front n % cap; size = sub_size r.size n }, true)

  -- `size_t peek(uint8_t* buf, size_t len)`; `given` says that `buf` is not null.
  pub peek : ByteRingBuffer → Bool → ℕ → ℕ × List ℕ
  peek r given len = if not given || len == 0 then (0, []) else peek_at r 0 len

  -- `size_t read(uint8_t* buf, size_t len)`.
  pub read : ByteRingBuffer → Bool → ℕ → ByteRingBuffer × ℕ × List ℕ
  read r given len =
      if not given || len == 0
      then (r, 0, [])
      else let (n, out) = peek_at r 0 len in (if ltb 0 n then (drop_front r n).0 else r, n, out)

  pub available : ByteRingBuffer → ℕ
  available r = sub_size cap r.size

-- `static_cast<T>(b) << s` for a `T` of `w` bytes, as `|=` keeps it.
abbrev pub shifted : ℕ → ℕ → ℕ → ℕ
shifted w b s = b * 2 ^ s % 2 ^ (8 * w)

-- The loop of `_peekType` from byte `i` on, over the bytes left: `*val |= temp[i] << …`.
pub assemble : Bool → ℕ → ℕ → ℕ → List ℕ → ℕ
assemble big w i val [] = val
assemble big w i val (b ∷ bs) =
    assemble big w (suc i) (bit_or val (shifted w b (8 * (if big then w - 1 - i else i)))) bs

module _ (cap : ℕ) where
  -- `bool _peekType<T>(size_t offset, T* val, bool bigEndian)` for a `T` of `w` bytes.
  pub peek_type : ℕ → ByteRingBuffer → ℕ → Bool → Bool → Option ℕ
  peek_type w r offset given big =
      if not given
      then none
      else let (n, temp) = peek_at cap r offset w in
        if n == w then some (assemble big w 0 0 temp) else none

  -- `bool _readType<T>(T* val, bool bigEndian)`.
  pub read_type : ℕ → ByteRingBuffer → Bool → Bool → ByteRingBuffer × Option ℕ
  read_type w r given big = elim (peek_type w r 0 given big) [
    | some val ↦ ((drop_front cap r w).0, some val)
    | none ↦ (r, none)
  ]

  pub peek8 : ByteRingBuffer → ℕ → Bool → Option ℕ
  peek8 r offset given = peek_type 1 r offset given false

  pub peek16 : ByteRingBuffer → ℕ → Bool → Bool → Option ℕ
  peek16 r offset given big = peek_type 2 r offset given big

  pub peek32 : ByteRingBuffer → ℕ → Bool → Bool → Option ℕ
  peek32 r offset given big = peek_type 4 r offset given big

  pub read8 : ByteRingBuffer → Bool → ByteRingBuffer × Option ℕ
  read8 r given = read_type 1 r given false

  pub read16 : ByteRingBuffer → Bool → Bool → ByteRingBuffer × Option ℕ
  read16 r given big = read_type 2 r given big

  pub read32 : ByteRingBuffer → Bool → Bool → ByteRingBuffer × Option ℕ
  read32 r given big = read_type 4 r given big
