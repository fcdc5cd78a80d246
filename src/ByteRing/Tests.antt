-- ===== src/ByteRing/Tests.antt =====
-- Runs of the byte ring, and its laws at a ring whose bytes go round the end of the array.
use c_wrapper.Prelude.{◌≡◌, ◌≤◌, ◌<◌, refl, arith, true, false, some, none, [], ◌∷◌, ◌++◌, take}
use c_wrapper.ByteRing.{
  ByteRingBuffer, write, peek_at, peek, read, peek_type, read_type, read16, peek_bytes, assemble,
}
use c_wrapper.ByteRing.Invariant.{IsValid}
use c_wrapper.ByteRing.Write.{contents, write_lem}
use c_wrapper.ByteRing.Peek.{peek_at_lem}
use c_wrapper.ByteRing.Stream.{peek_lem, read_lem, read-write}
use c_wrapper.ByteRing.Typed.{read_type_lem}

-- 1, 2, 3 from the last place of an array of four
abbrev wrapped : ByteRingBuffer
wrapped = record { bytes = 2 ∷ 3 ∷ 0 ∷ 1 ∷ []; size = 3; front = 3; rear = 2 }

abbrev wrapped-IsValid : IsValid 4 wrapped
wrapped-IsValid = record {
  positive = omega arith;
  small = omega arith;
  storage = refl;
  fits = omega arith;
  front_in = omega arith;
  rear_in = omega arith;
  linked = refl;
}

read_big_endian : (read16 4 wrapped true true).1 ≡ some 0x0102
unfolding read16 read_type peek_type peek_at peek_bytes assemble
read_big_endian = refl

write_lem_test :
    let (r', n) = write 4 wrapped (some (9 ∷ 8 ∷ [])) 2 in
    (n ≡ 1) × (contents 4 r' ≡ (1 ∷ 2 ∷ 3 ∷ []) ++ take n (9 ∷ 8 ∷ []))
write_lem_test = write_lem (9 ∷ 8 ∷ []) 2 wrapped-IsValid (omega arith)

peek_at_lem_test : let (n, out) = peek_at 4 wrapped 1 9 in (n ≡ 2) × (out ≡ 2 ∷ 3 ∷ [])
peek_at_lem_test = peek_at_lem wrapped-IsValid 1 9

peek_lem_test : let (n, out) = peek 4 wrapped true 2 in (n ≡ 2) × (out ≡ 1 ∷ 2 ∷ [])
peek_lem_test = peek_lem wrapped-IsValid 2

read_lem_test :
    let (r', n, out) = read 4 wrapped true 2 in
    (n ≡ 2) × (out ≡ 1 ∷ 2 ∷ []) × (contents 4 r' ≡ 3 ∷ [])
read_lem_test = read_lem wrapped-IsValid 2

read-write_example :
    let (r', n) = write 4 wrapped (some (9 ∷ 8 ∷ [])) 2 in
    let (r'', m, out) = read 4 r' true 2 in
    (out ++ contents 4 r'' ≡ (1 ∷ 2 ∷ 3 ∷ []) ++ take n (9 ∷ 8 ∷ [])) × (m ≡ 2)
read-write_example = read-write wrapped-IsValid (9 ∷ 8 ∷ []) 2 2 (omega arith)

read_type_lem_example :
    (2 ≤ 3
      → let (r', val) = read_type 4 2 wrapped true false in
        (val ≡ some 0x0201) × (contents 4 r' ≡ 3 ∷ []))
    × (3 < 2 → read_type 4 2 wrapped true false ≡ (wrapped, none))
read_type_lem_example = read_type_lem wrapped-IsValid (omega arith) 2 false (omega arith)

peek_two : peek_type 4 2 wrapped 1 true true ≡ some 0x0203
unfolding peek_type peek_at peek_bytes assemble
peek_two = refl
