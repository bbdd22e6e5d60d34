-- ===== src/Gdt.antt =====
-- tools.bak/gdt_creator/gdt_creator.c: segment descriptors of the x86 as numbers. What `printf`
-- gets is the output; its format is of the C library.
pub mod Fields
mod Tests
use Prim.Native.Nat.{bit_and, bit_or}
use ganos.Base.{ℕ, ◌*◌, ◌/◌, ◌^◌, List, [], ◌∷◌, u16, u32, u64}

-- The macros of the flag word; each argument is one of the source's constants.
abbrev seg_desctype : ℕ → ℕ
seg_desctype x = x * 2 ^ 4

abbrev seg_pres : ℕ → ℕ
seg_pres x = x * 2 ^ 7

abbrev seg_savl : ℕ → ℕ
seg_savl x = x * 2 ^ 12

abbrev seg_long : ℕ → ℕ
seg_long x = x * 2 ^ 13

abbrev seg_size : ℕ → ℕ
seg_size x = x * 2 ^ 14

abbrev seg_gran : ℕ → ℕ
seg_gran x = x * 2 ^ 15

abbrev seg_priv : ℕ → ℕ
seg_priv x = bit_and x 3 * 2 ^ 5

abbrev seg_data_rdwr : ℕ
seg_data_rdwr = 0x02

abbrev seg_code_exrd : ℕ
seg_code_exrd = 0x0A

-- GDT_CODE_PL0, GDT_DATA_PL0, GDT_CODE_PL3 and GDT_DATA_PL3, which differ in the level and the type.
abbrev gdt_flags : ℕ → ℕ → ℕ
gdt_flags level type =
    bit_or
      (bit_or
        (bit_or
          (bit_or (bit_or (bit_or (bit_or (seg_desctype 1) (seg_pres 1)) (seg_savl 0)) (seg_long 0))
            (seg_size 1))
          (seg_gran 1))
        (seg_priv level))
      type

-- The high word: `flag` is 16 bits wide, and shifted as an `int`.
pub high_word : ℕ → ℕ → ℕ → ℕ
high_word base limit flag =
    bit_or
      (bit_or (bit_or (bit_and limit 0x000F0000) (bit_and (flag * 2 ^ 8) 0x00F0FF00))
        (bit_and (base / 2 ^ 16) 0x000000FF))
      (bit_and base 0xFF000000)

-- `create_descriptor`, with the descriptor that it prints.
pub create_descriptor : ℕ → ℕ → ℕ → ℕ
unfolding high_word
create_descriptor base limit flag =
    bit_or (bit_or (u64 (high_word base limit flag * 2 ^ 32)) (u32 (base * 2 ^ 16)))
      (bit_and limit 0x0000FFFF)

-- The numbers that `main` prints.
pub main : List ℕ
unfolding create_descriptor
main =
    create_descriptor 0 0 0
    ∷ create_descriptor 0 0x000FFFFF (u16 (gdt_flags 0 seg_code_exrd))
    ∷ create_descriptor 0 0x000FFFFF (u16 (gdt_flags 0 seg_data_rdwr))
    ∷ create_descriptor 0 0x000FFFFF (u16 (gdt_flags 3 seg_code_exrd))
    ∷ create_descriptor 0 0x000FFFFF (u16 (gdt_flags 3 seg_data_rdwr))
    ∷ []
