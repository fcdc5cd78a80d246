-- ===== src/ByteRing/Typed.antt =====
-- `_peekType` and `_readType`: integers of `w` bytes in either byte order.
use Prim.Native.Nat.{bit_or}
use native.Mathlib.Numerals.{towards_suc}
use c_wrapper.Prelude.{
  ℕ, zero, suc, ◌+◌, ◌-◌, ◌*◌, ◌^◌, ◌≤◌, ◌<◌, ◌≡◌, refl, arith, Bool, true, false, none, some, List,
  [], ◌∷◌, length, take, drop, length-take, length-drop, length-tabulate, if◌then◌else◌, ap, ◌∙◌,
  mod-eq_of_lt, dec_lt, ==_iff, ==_ne,
}
use c_wrapper.Prelude.Bits.{bit_or-disjoint, bit_or-disjoint', pow-lt-pow, pow-pos}
use c_wrapper.ByteRing.{ByteRingBuffer, shifted, assemble, peek_at, peek_type, read_type}
use c_wrapper.ByteRing.Invariant.{IsValid}
use c_wrapper.ByteRing.Write.{slot, contents}
use c_wrapper.ByteRing.Peek.{peek_at_lem, drop_front_lem}

-- Every entry is a `uint8_t`.
abbrev pub AreBytes : List ℕ → Type 0
AreBytes [] = Unit {0}
AreBytes (b ∷ bs) = (b < 256) × AreBytes bs

-- The number that a list of bytes stands for, the least significant first.
abbrev pub le_value : List ℕ → ℕ
le_value [] = 0
le_value (b ∷ bs) = b + 256 * le_value bs

-- The most significant first.
abbrev pub be_value : List ℕ → ℕ
be_value [] = 0
be_value (b ∷ bs) = b * 2 ^ (8 * length bs) + be_value bs

pub pow8-suc : (i : ℕ) → 2 ^ (8 * suc i) ≡ 2 ^ (8 * i) * 256
pow8-suc i =
    ap (◌^◌ 2) {x = 8 * suc i} {y = 8 * i + 8} (omega arith) ∙ simp towards_suc (omega arith)

pow8_mono : (i w : ℕ) → i < w → 2 ^ (8 * suc i) ≤ 2 ^ (8 * w)
pow8_mono i w h = elim (dec_lt (suc i) w) [
  | yes p ↦ omega (arith, pow-lt-pow (8 * suc i) (8 * w) (omega arith))
  | no p ↦ let e : w ≡ suc i = omega arith in rw e (omega arith)
]

-- No bit of a shifted byte is lost.
shifted_lem : (w b i : ℕ) → i < w → b < 256 → shifted w b (8 * i) ≡ b * 2 ^ (8 * i)
shifted_lem w b i h small =
    mod-eq_of_lt (grind (arith, pow8-suc i, pow8_mono i w h, pow-pos (8 * i)))

assemble-le :
    (w i val : ℕ) (bs : List ℕ)
    → val < 2 ^ (8 * i)
    → i + length bs ≤ w
    → AreBytes bs
    → assemble false w i val bs ≡ val + 2 ^ (8 * i) * le_value bs
unfolding assemble
assemble-le w i val [] small room ok = omega arith
assemble-le w i val (b ∷ bs) small room ok =
    let next : bit_or val (shifted w b (8 * i)) ≡ val + b * 2 ^ (8 * i) =
      ap (bit_or val) (shifted_lem w b i (omega arith) ok.0)
      ∙ bit_or-disjoint (8 * i) val b small in
    rw next (
      assemble-le w (suc i) (val + b * 2 ^ (8 * i)) bs (grind (arith, pow8-suc i, pow-pos (8 * i)))
        (omega arith) ok.1
      ∙ omega (arith, ap (λ t. t * le_value bs) (pow8-suc i)))

assemble-be :
    (w i h : ℕ) (bs : List ℕ)
    → i + length bs ≡ w
    → AreBytes bs
    → assemble true w i (h * 2 ^ (8 * length bs)) bs ≡ h * 2 ^ (8 * length bs) + be_value bs
unfolding assemble
assemble-be w i h [] room ok = omega arith
assemble-be w i h (b ∷ bs) room ok =
    let n = length bs in
    let place : 8 * (w - 1 - i) ≡ 8 * n = omega arith in
    let next : bit_or (h * 2 ^ (8 * suc n)) (shifted w b (8 * (w - 1 - i)))
        ≡ (h * 256 + b) * 2 ^ (8 * n) =
      ap (λ s. bit_or (h * 2 ^ (8 * suc n)) (shifted w b s)) place
      ∙ ap (bit_or (h * 2 ^ (8 * suc n))) (shifted_lem w b n (omega arith) ok.0)
      ∙ bit_or-disjoint' (8 * suc n) (b * 2 ^ (8 * n)) h
          (grind (arith, pow8-suc n, pow-pos (8 * n)))
      ∙ omega (arith, ap (◌*◌ h) (pow8-suc n)) in
    ap (λ v. assemble true w (suc i) v bs) next
    ∙ assemble-be w (suc i) (h * 256 + b) bs (omega arith) ok.1
    ∙ omega (arith, ap (◌*◌ h) (pow8-suc n))

-- The number that `w` bytes stand for in the byte order asked for.
abbrev pub value_of : Bool → List ℕ → ℕ
value_of big bs = if big then be_value bs else le_value bs

assemble_lem :
    (big : Bool) (w : ℕ) (bs : List ℕ)
    → length bs ≡ w
    → AreBytes bs
    → assemble big w 0 0 bs ≡ value_of big bs
assemble_lem true w bs e ok =
    ap (λ v. assemble true w 0 v bs) {x = 0} {y = 0 * _} (omega arith)
    ∙ assemble-be w 0 0 bs (omega arith) ok
    ∙ omega arith
assemble_lem false w bs e ok = assemble-le w 0 0 bs (omega arith) (omega arith) ok ∙ omega arith

take-AreBytes : (n : ℕ) (xs : List ℕ) → AreBytes xs → AreBytes (take n xs)
take-AreBytes zero xs ok = tt
take-AreBytes (suc n) [] ok = tt
take-AreBytes (suc n) (x ∷ xs) ok = (ok.0, take-AreBytes n xs ok.1)

drop-AreBytes : (n : ℕ) (xs : List ℕ) → AreBytes xs → AreBytes (drop n xs)
drop-AreBytes zero xs ok = ok
drop-AreBytes (suc n) [] ok = tt
drop-AreBytes (suc n) (x ∷ xs) ok = drop-AreBytes n xs ok.1

module _ {cap : ℕ} {r : ByteRingBuffer} (v : IsValid cap r) (ok : AreBytes (contents cap r)) where
  part_ok : (w offset : ℕ) → AreBytes (take w (drop offset (contents cap r)))
  part_ok w offset =
      take-AreBytes w (drop offset (contents cap r)) (drop-AreBytes offset (contents cap r) ok)

  part-length :
      (w offset : ℕ) → offset + w ≤ r.size → length (take w (drop offset (contents cap r))) ≡ w
  part-length w offset h = omega (
    arith,
    length-take w (drop offset (contents cap r)),
    length-drop offset (contents cap r),
    length-tabulate r.size (slot cap r),
  )

  -- `_peekType` of `w` bytes at `offset` gives the number that those bytes of the stream stand for in
  -- the byte order asked for, and fails exactly when the stream does not reach that far.
  pub peek_type_lem :
      (w offset : ℕ) (big : Bool)
      → 0 < w
      → (offset + w ≤ r.size
          → peek_type cap w r offset true big
            ≡ some (value_of big (take w (drop offset (contents cap r)))))
        × (r.size < offset + w → peek_type cap w r offset true big ≡ none)
  unfolding peek_type
  peek_type_lem w offset big pos =
      let e = peek_at_lem v offset w in
      (
        λ enough.
            rw ((==_iff (peek_at cap r offset w).0 w).1 (omega (arith, e.0)), e.1)
              (ap some (
                assemble_lem big w (take w (drop offset (contents cap r)))
                  (part-length w offset enough) (part_ok w offset))),
        λ short. rw (==_ne (peek_at cap r offset w).0 w (λ f. omega (arith, e.0, f))),
      )

  -- `_readType` gives the number that the first `w` bytes stand for and removes them; with fewer bytes
  -- there it fails and leaves the ring as it is.
  pub read_type_lem :
      (w : ℕ) (big : Bool)
      → 0 < w
      → (w ≤ r.size
          → let (r', val) = read_type cap w r true big in
            (val ≡ some (value_of big (take w (contents cap r))))
            × (contents cap r' ≡ drop w (contents cap r)))
        × (r.size < w → read_type cap w r true big ≡ (r, none))
  unfolding read_type
  read_type_lem w big pos =
      let (there, short) = peek_type_lem w 0 big pos in
      (
        λ enough. rw (there (omega arith), read_type) (refl, ((drop_front_lem v w).0 enough).1),
        λ few. rw (short (omega arith), read_type),
      )
