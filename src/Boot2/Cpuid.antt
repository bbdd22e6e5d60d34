-- ===== src/Boot2/Cpuid.antt =====
-- `cpuid` of boot2.c: the brand string of the processor. The instruction is a parameter, and so is
-- the address of the array on the stack.
use ganos.Base.{
  ap, ap₂, zero, suc, leb, ltb, get_or, ◌/◌, ◌%◌, ◌-◌, ◌&&◌, ℕ, ◌+◌, ◌≤◌, ◌<◌, ◌^◌, ◌≡◌, refl, ◌∙◌,
  arith, List, [], ◌∷◌, ◌++◌, ◌==◌, if◌then◌else◌, Mem, store, length, le32, codes, Bool-cases, inl,
  inr,
}
use ganos.Base.Run.{Run, done}
use ganos.Boot2.{State}
use ganos.Boot2.Number.{put_str, IsInside}
use ganos.Boot2.Printf.{colour, printf}
use ganos.Boot2.Printf.Strings.{StringAt, OffScreen, new_line, printf_string}

-- EAX, EBX, ECX and EDX.
pub record Registers : Type 0 where
  pub a : ℕ
  pub b : ℕ
  pub c : ℕ
  pub d : ℕ

-- What the instruction leaves in the registers, by the number in EAX.
abbrev pub Processor : Type 0
Processor = ℕ → Registers

stored_words : Registers → List ℕ
stored_words r = le32 r.a ++ le32 r.b ++ le32 r.c ++ le32 r.d

-- The bytes of `cpu_brand`, whose last word keeps its zero.
pub cpu_brand : Processor → List ℕ
cpu_brand processor =
    stored_words (processor 0x80000002)
    ++ (stored_words (processor 0x80000003) ++ (stored_words (processor 0x80000004) ++ le32 0))

pub put_bytes : Mem → ℕ → List ℕ → Mem
put_bytes m a [] = m
put_bytes m a (b ∷ bs) = put_bytes (store m a b) (a + 1) bs

pub cpuid : ℕ → Processor → ℕ → State → Run State
cpuid fuel processor address s =
    printf fuel (codes "%s\r\n") (address ∷ [])
      (record s { mem = put_bytes s.mem address (cpu_brand processor) })

-- The bytes in front of the first NUL.
unfoldable pub until_nul : List ℕ → List ℕ
until_nul [] = []
until_nul (c ∷ cs) = if c == 0 then [] else c ∷ until_nul cs

put_bytes-before : (m : Mem) (a k : ℕ) (bs : List ℕ) → k < a → put_bytes m a bs k ≡ m k
unfolding put_bytes
put_bytes-before m a k [] h = refl
put_bytes-before m a k (b ∷ bs) h =
    put_bytes-before (store m a b) (a + 1) k bs (omega arith) ∙ ground arith

-- Bytes with a NUL among them hold a string.
put_bytes-StringAt :
    (m : Mem) (a : ℕ) (bs rest : List ℕ)
    → StringAt (put_bytes m a (bs ++ 0 ∷ rest)) a (until_nul (bs ++ 0 ∷ rest))
unfolding put_bytes until_nul
put_bytes-StringAt m a [] rest =
    put_bytes-before (store m a 0) (a + 1) a rest (omega arith) ∙ ground arith
put_bytes-StringAt m a (b ∷ bs) rest = elim (Bool-cases (b == 0)) [
  | inl nul ↦ rw nul (
      put_bytes-before (store m a b) (a + 1) a (bs ++ 0 ∷ rest) (omega arith) ∙ ground (arith, nul))
  | inr byte ↦ rw byte (
    put_bytes-before (store m a b) (a + 1) a (bs ++ 0 ∷ rest) (omega arith) ∙ ground arith,
    ground (arith, byte),
    put_bytes-StringAt (store m a b) (a + 1) bs rest,
  )
]

until_nul-length : (bs rest : List ℕ) → length (until_nul (bs ++ 0 ∷ rest)) ≤ length bs
unfolding until_nul
until_nul-length [] rest = omega arith
until_nul-length (b ∷ bs) rest = ground (arith, until_nul-length bs rest)

cpu_brand-nul :
    (processor : Processor)
    → (bs : List ℕ) × (cpu_brand processor ≡ bs ++ 0 ∷ 0 ∷ 0 ∷ 0 ∷ []) × (length bs ≡ 48)
unfolding cpu_brand stored_words
cpu_brand-nul processor = (
  stored_words (processor 0x80000002)
      ++ (stored_words (processor 0x80000003) ++ stored_words (processor 0x80000004)),
  refl,
  refl,
)

-- EAX, EBX, ECX and EDX by their number.
abbrev register : Registers → ℕ → ℕ
register r zero = r.a
register r (suc zero) = r.b
register r (suc (suc zero)) = r.c
register r (suc (suc (suc n))) = r.d

-- Byte `k` of the brand string: a leaf of the instruction has 16 bytes, a register 4, the least
-- significant one first.
brand_byte : Processor → ℕ → ℕ
brand_byte processor k =
    register (processor (0x80000002 + k / 16)) (k % 16 / 4) / 256 ^ (k % 4) % 256

bytes_from : Processor → ℕ → ℕ → List ℕ
bytes_from processor k zero = []
bytes_from processor k (suc n) = brand_byte processor k ∷ bytes_from processor (k + 1) n

-- The 48 bytes of the string, and four NULs.
pub brand_string : Processor → List ℕ
unfolding bytes_from brand_byte
brand_string processor = bytes_from processor 0 48 ++ 0 ∷ 0 ∷ 0 ∷ 0 ∷ []

-- The bytes of a word.
abbrev word : ℕ → List ℕ
word x = x / 256 ^ 0 % 256 ∷ x / 256 ^ 1 % 256 ∷ x / 256 ^ 2 % 256 ∷ x / 256 ^ 3 % 256 ∷ []

abbrev both : List ℕ → List ℕ → List ℕ
both bs cs = bs ++ cs

le32-word : (x : ℕ) → le32 x ≡ word x
le32-word x = ground arith

stored_words-word :
    (r : Registers) → stored_words r ≡ word r.a ++ (word r.b ++ (word r.c ++ word r.d))
unfolding stored_words
stored_words-word r =
    ap₂ both (le32-word r.a) (ap₂ both (le32-word r.b) (ap₂ both (le32-word r.c) (le32-word r.d)))

cpu_brand-brand_string : (processor : Processor) → cpu_brand processor ≡ brand_string processor
unfolding cpu_brand brand_string
cpu_brand-brand_string processor = ap₂ both (stored_words-word (processor 0x80000002)) (
    ap₂ both (stored_words-word (processor 0x80000003))
      (ap (λ bs. both bs (le32 0)) (stored_words-word (processor 0x80000004))))

-- The memory with these bytes at an address, and all others as they were.
pub laid : Mem → ℕ → List ℕ → Mem
laid m a bs k = if leb a k && ltb k (a + length bs) then get_or bs (k - a) 0 else m k

put_bytes-laid : (m : Mem) (a : ℕ) (bs : List ℕ) (k : ℕ) → put_bytes m a bs k ≡ laid m a bs k
unfolding put_bytes laid
put_bytes-laid m a [] k = ground arith
put_bytes-laid m a (b ∷ bs) k = ground (arith, put_bytes-laid (store m a b) (a + 1) bs k)

-- From an even index inside a screen below 65536 bytes that the array does not overlap, with fuel
-- for the 52 bytes of the array, `cpuid` returns and shows the brand string up to its first NUL,
-- and then starts a new line. The string is the registers EAX, EBX, ECX and EDX of the leaves
-- 0x80000002 to 0x80000004, each with its least significant byte first, and lies in the array with
-- four NULs behind it; no other memory is changed but the screen.
pub cpuid_lem :
    (fuel : ℕ) (processor : Processor) (address : ℕ) (s : State)
    → IsInside s
    → OffScreen address 52 s
    → address + 52 < 2 ^ 32
    → 52 < fuel
    → cpuid fuel processor address s
      ≡ done (
          new_line (
            put_str
              (until_nul (brand_string processor))
              colour
              (record s { mem = laid s.mem address (brand_string processor) })))
unfolding cpuid
cpuid_lem fuel processor address s v off small fuelled =
    let (bs, e, size) = cpu_brand-nul processor in
    let tail : List ℕ = 0 ∷ 0 ∷ 0 ∷ [] in
    let m : Mem = put_bytes s.mem address (bs ++ 0 ∷ tail) in
    let cs : List ℕ = until_nul (bs ++ 0 ∷ tail) in
    let short : length cs ≤ 48 = omega (arith, until_nul-length bs tail, size) in
    let there : (cs' : List ℕ) → put_bytes s.mem address cs' ≡ laid s.mem address cs' =
      λ cs' i k. put_bytes-laid s.mem address cs' k i in
    rw (← cpu_brand-brand_string processor, ← there (cpu_brand processor), e)
      (printf_string fuel address cs (record s { mem = m })
        (put_bytes-StringAt s.mem address bs tail)
        (record { small = v.small; even = v.even; inside = v.inside }) (ground (arith, off, short))
        (omega arith) (omega arith))
