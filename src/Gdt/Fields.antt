-- ===== src/Gdt/Fields.antt =====
-- The fields of a descriptor, as the processor finds them in its 64 bits.
use Prim.Native.Nat.{bit_and, bit_or}
use ganos.Base.{ℕ, ◌+◌, ◌*◌, ◌/◌, ◌%◌, ◌^◌, ◌<◌, ◌≡◌, refl, ap, ap₂, ◌∙◌, arith, u32, u64}
use ganos.Base.Bits.{
  bit_and-split, bit_or-split, bit_and-zero, bit_or-zero, zero-bit_or, bit_and-ones,
}
use native.Mathlib.Nat.{one-le-pow}
use ganos.Gdt.{high_word, create_descriptor}

-- The base in bits 16 to 39 and 56 to 63, the limit in bits 0 to 15 and 48 to 51, the access byte in
-- bits 40 to 47 and the flags in bits 52 to 55.
unfoldable pub segment_base : ℕ → ℕ
segment_base d = d / 2 ^ 56 % 2 ^ 8 * 2 ^ 24 + d / 2 ^ 16 % 2 ^ 24

unfoldable pub segment_limit : ℕ → ℕ
segment_limit d = d / 2 ^ 48 % 2 ^ 4 * 2 ^ 16 + d % 2 ^ 16

unfoldable pub access_byte : ℕ → ℕ
access_byte d = d / 2 ^ 40 % 2 ^ 8

unfoldable pub flags : ℕ → ℕ
flags d = d / 2 ^ 52 % 2 ^ 4

-- The high word by its five fields.
abbrev packed : ℕ → ℕ → ℕ → ℕ → ℕ → ℕ
packed a b c d e = ((((a * 2 ^ 4 + b) * 2 ^ 4) + c) * 2 ^ 8 + d) * 2 ^ 8 + e

abbrev Narrow : ℕ → ℕ → ℕ → ℕ → Type 0
Narrow b c d e = (b < 2 ^ 4) × (c < 2 ^ 4) × (d < 2 ^ 8) × (e < 2 ^ 8)

module _ (op : ℕ → ℕ → ℕ)
    (split : (k q r q' r' : ℕ)
      → r < 2 ^ k
      → r' < 2 ^ k
      → op (q * 2 ^ k + r) (q' * 2 ^ k + r') ≡ op q q' * 2 ^ k + op r r') where
  op-packed :
      (a b c d e a' b' c' d' e' : ℕ)
      → Narrow b c d e
      → Narrow b' c' d' e'
      → op (packed a b c d e) (packed a' b' c' d' e')
        ≡ packed (op a a') (op b b') (op c c') (op d d') (op e e')
  op-packed a b c d e a' b' c' d' e' h h' =
      let x = a * 2 ^ 4 + b in
      let x' = a' * 2 ^ 4 + b' in
      let y = x * 2 ^ 4 + c in
      let y' = x' * 2 ^ 4 + c' in
      let z = y * 2 ^ 8 + d in
      let z' = y' * 2 ^ 8 + d' in
      omega (
        arith,
        split 8 z e z' e' h.3 h'.3,
        split 8 y d y' d' h.2 h'.2,
        split 4 x c x' c' h.1 h'.1,
        split 4 a b a' b' h.0 h'.0,
      )

-- The four masks.
limit_bits :
    (limit : ℕ)
    → limit < 2 ^ 32
    → bit_and limit 0x000F0000 ≡ packed 0 0 (limit / 2 ^ 16 % 2 ^ 4) 0 0
limit_bits limit h =
    let a = limit / 2 ^ 24 in
    let b = limit / 2 ^ 20 % 2 ^ 4 in
    let c = limit / 2 ^ 16 % 2 ^ 4 in
    let d = limit / 2 ^ 8 % 2 ^ 8 in
    let e = limit % 2 ^ 8 in
    let cut : limit ≡ packed a b c d e = omega arith in
    ap (λ (x : ℕ). bit_and x 0x000F0000) cut
    ∙ op-packed bit_and bit_and-split a b c d e 0 0 15 0 0 (omega arith) (omega arith)
    ∙ rw
        (
          bit_and-zero a,
          bit_and-zero b,
          bit_and-ones 4 c (omega arith),
          bit_and-zero d,
          bit_and-zero e,
        )
        refl

flag_bits :
    (flag : ℕ)
    → flag < 2 ^ 16
    → bit_and (flag * 2 ^ 8) 0x00F0FF00 ≡ packed 0 (flag / 2 ^ 12) 0 (flag % 2 ^ 8) 0
flag_bits flag h =
    let b = flag / 2 ^ 12 in
    let c = flag / 2 ^ 8 % 2 ^ 4 in
    let d = flag % 2 ^ 8 in
    let cut : flag * 2 ^ 8 ≡ packed 0 b c d 0 = omega arith in
    ap (λ (x : ℕ). bit_and x 0x00F0FF00) cut
    ∙ op-packed bit_and bit_and-split 0 b c d 0 0 15 0 255 0 (omega arith) (omega arith)
    ∙ rw (bit_and-ones 4 b (omega arith), bit_and-zero c, bit_and-ones 8 d (omega arith)) refl

middle_bits :
    (base : ℕ)
    → base < 2 ^ 32
    → bit_and (base / 2 ^ 16) 0x000000FF ≡ packed 0 0 0 0 (base / 2 ^ 16 % 2 ^ 8)
middle_bits base h =
    let d = base / 2 ^ 24 in
    let e = base / 2 ^ 16 % 2 ^ 8 in
    let cut : base / 2 ^ 16 ≡ packed 0 0 0 d e = omega arith in
    ap (λ (x : ℕ). bit_and x 0x000000FF) cut
    ∙ op-packed bit_and bit_and-split 0 0 0 d e 0 0 0 0 255 (omega arith) (omega arith)
    ∙ rw (bit_and-zero d, bit_and-ones 8 e (omega arith)) refl

top_bits : (base : ℕ) → base < 2 ^ 32 → bit_and base 0xFF000000 ≡ packed (base / 2 ^ 24) 0 0 0 0
top_bits base h =
    let a = base / 2 ^ 24 in
    let b = base / 2 ^ 20 % 2 ^ 4 in
    let c = base / 2 ^ 16 % 2 ^ 4 in
    let d = base / 2 ^ 8 % 2 ^ 8 in
    let e = base % 2 ^ 8 in
    let cut : base ≡ packed a b c d e = omega arith in
    ap (λ (x : ℕ). bit_and x 0xFF000000) cut
    ∙ op-packed bit_and bit_and-split a b c d e 255 0 0 0 0 (omega arith) (omega arith)
    ∙ rw
        (
          bit_and-ones 8 a (omega arith),
          bit_and-zero b,
          bit_and-zero c,
          bit_and-zero d,
          bit_and-zero e,
        )
        refl

-- `|` of fields where one has no bits.
or_packed :
    (a b c d e a' b' c' d' e' : ℕ)
    → Narrow b c d e
    → Narrow b' c' d' e'
    → bit_or (packed a b c d e) (packed a' b' c' d' e')
      ≡ packed (bit_or a a') (bit_or b b') (bit_or c c') (bit_or d d') (bit_or e e')
or_packed = op-packed bit_or bit_or-split

high_word_lem :
    (base limit flag : ℕ)
    → base < 2 ^ 32
    → limit < 2 ^ 32
    → flag < 2 ^ 16
    → high_word base limit flag
      ≡ packed
          (base / 2 ^ 24)
          (flag / 2 ^ 12)
          (limit / 2 ^ 16 % 2 ^ 4)
          (flag % 2 ^ 8)
          (base / 2 ^ 16 % 2 ^ 8)
unfolding high_word
high_word_lem base limit flag hb hl hf =
    let a = base / 2 ^ 24 in
    let b = flag / 2 ^ 12 in
    let c = limit / 2 ^ 16 % 2 ^ 4 in
    let d = flag % 2 ^ 8 in
    let e = base / 2 ^ 16 % 2 ^ 8 in
    rw (limit_bits limit hl, flag_bits flag hf, middle_bits base hb, top_bits base hb)
      (ap (λ (x : ℕ). bit_or (bit_or x (packed 0 0 0 0 e)) (packed a 0 0 0 0))
          (or_packed 0 0 c 0 0 0 b 0 d 0 (omega arith) (omega arith)
            ∙ rw (zero-bit_or b, bit_or-zero c, zero-bit_or d) refl)
        ∙ ap (λ (x : ℕ). bit_or x (packed a 0 0 0 0))
            (or_packed 0 b c d 0 0 0 0 0 e (omega arith) (omega arith)
              ∙ rw (bit_or-zero b, bit_or-zero c, bit_or-zero d, zero-bit_or e) refl)
        ∙ or_packed 0 b c d e a 0 0 0 0 (omega arith) (omega arith)
        ∙ rw (zero-bit_or a, bit_or-zero b, bit_or-zero c, bit_or-zero d, bit_or-zero e) refl)

low_bits : (limit : ℕ) → bit_and limit 0x0000FFFF ≡ limit % 2 ^ 16
low_bits limit =
    let q = limit / 2 ^ 16 in
    let r = limit % 2 ^ 16 in
    let cut : limit ≡ q * 2 ^ 16 + r = omega arith in
    ap (λ (x : ℕ). bit_and x 0x0000FFFF) cut
    ∙ bit_and-split 16 q r 0 0xFFFF (omega arith) (omega arith)
    ∙ rw (bit_and-zero q, bit_and-ones 16 r (omega arith)) (omega arith)

-- A part above bit `k`, and one below it.
or_above : (k q r : ℕ) → r < 2 ^ k → bit_or (q * 2 ^ k) r ≡ q * 2 ^ k + r
or_above k q r h =
    let left : q * 2 ^ k ≡ q * 2 ^ k + 0 = omega arith in
    let right : r ≡ 0 * 2 ^ k + r = omega arith in
    ap₂ bit_or left right
    ∙ bit_or-split k q 0 0 r (one-le-pow k 2 (omega arith)) h
    ∙ rw (bit_or-zero q, zero-bit_or r) refl

-- The whole descriptor.
create_descriptor_lem :
    (base limit flag : ℕ)
    → base < 2 ^ 32
    → limit < 2 ^ 32
    → flag < 2 ^ 16
    → create_descriptor base limit flag
      ≡ packed
            (base / 2 ^ 24)
            (flag / 2 ^ 12)
            (limit / 2 ^ 16 % 2 ^ 4)
            (flag % 2 ^ 8)
            (base / 2 ^ 16 % 2 ^ 8)
          * 2 ^ 32
        + (base % 2 ^ 16) * 2 ^ 16
        + limit % 2 ^ 16
unfolding create_descriptor
create_descriptor_lem base limit flag hb hl hf =
    let h = high_word base limit flag in
    let y = base % 2 ^ 16 in
    let l = limit % 2 ^ 16 in
    let high = high_word_lem base limit flag hb hl hf in
    let shifted : u64 (h * 2 ^ 32) ≡ h * 2 ^ 32 = omega (arith, high) in
    let middle : u32 (base * 2 ^ 16) ≡ y * 2 ^ 16 = omega arith in
    let regroup : h * 2 ^ 32 + y * 2 ^ 16 ≡ (h * 2 ^ 16 + y) * 2 ^ 16 = omega arith in
    ap₂ (λ (x : ℕ) (z : ℕ). bit_or (bit_or x z) (bit_and limit 0x0000FFFF)) shifted middle
    ∙ ap₂ bit_or (or_above 32 h (y * 2 ^ 16) (omega arith) ∙ regroup) (low_bits limit)
    ∙ or_above 16 (h * 2 ^ 16 + y) l (omega arith)
    ∙ omega (arith, high)

-- For a base and a limit of 32 bits and a flag word of 16 bits, the processor finds in the descriptor
-- the base, the low 20 bits of the limit, the low byte of the flag word as the access byte and its
-- high four bits as the flags, and nothing else: the descriptor fits 64 bits.
pub create_descriptor-fields :
    (base limit flag : ℕ)
    → base < 2 ^ 32
    → limit < 2 ^ 32
    → flag < 2 ^ 16
    → let d = create_descriptor base limit flag in
      (segment_base d ≡ base)
      × (segment_limit d ≡ limit % 2 ^ 20)
      × (access_byte d ≡ flag % 2 ^ 8)
      × (flags d ≡ flag / 2 ^ 12)
      × (d < 2 ^ 64)
unfolding segment_base segment_limit access_byte flags
create_descriptor-fields base limit flag hb hl hf =
    let e = create_descriptor_lem base limit flag hb hl hf in
    (omega (arith, e), omega (arith, e), omega (arith, e), omega (arith, e), omega (arith, e))
