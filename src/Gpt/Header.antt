-- ===== src/Gpt/Header.antt =====
-- A header of the table from its bytes.
use ganos.Base.{
  ℕ, ◌+◌, ◌*◌, ◌^◌, ◌<◌, ◌≡◌, arith, List, [], ◌∷◌, take, drop, le32, le64, codes, replicate,
}
use ganos.Gpt.Encode.{GptHeader, header_bytes}

-- The number whose bytes these are, the least significant first.
abbrev number : List ℕ → ℕ
number [] = 0
number (c ∷ cs) = c + 256 * number cs

abbrev field : ℕ → ℕ → List ℕ → List ℕ
field offset size cs = take size (drop offset cs)

-- A header as its 92 bytes give it.
pub header_of : List ℕ → GptHeader
header_of cs = record {
  signature = field 0 8 cs;
  revision = field 8 4 cs;
  header_size = number (field 12 4 cs);
  crc32_zlib = number (field 16 4 cs);
  current_lba = number (field 24 8 cs);
  backup_lba = number (field 32 8 cs);
  first_usable_lba = number (field 40 8 cs);
  last_usable_lba = number (field 48 8 cs);
  disk_guid = field 56 16 cs;
  part_array_lba = number (field 72 8 cs);
  part_entry_count = number (field 80 4 cs);
  part_entry_size = number (field 84 4 cs);
  crc32_zlib_part_array = number (field 88 4 cs);
}

number-le32 : (n : ℕ) → n < 2 ^ 32 → number (le32 n) ≡ n
number-le32 n h = omega arith

number-le64 : (n : ℕ) → n < 2 ^ 64 → number (le64 n) ≡ n
number-le64 n h = omega arith

-- The headers of a table differ in these numbers.
abbrev pub numbered : (crc current backup last array crc_array : ℕ) → GptHeader
numbered crc current backup last array crc_array = record {
  signature = codes "EFI PART";
  revision = 0 ∷ 0 ∷ 1 ∷ 0 ∷ [];
  header_size = 92;
  crc32_zlib = crc;
  current_lba = current;
  backup_lba = backup;
  first_usable_lba = 34;
  last_usable_lba = last;
  disk_guid = replicate 16 0;
  part_array_lba = array;
  part_entry_count = 128;
  part_entry_size = 128;
  crc32_zlib_part_array = crc_array;
}

pub header_of-header_bytes :
    (crc current backup last array crc_array : ℕ)
    → crc < 2 ^ 32
    → current < 2 ^ 64
    → backup < 2 ^ 64
    → last < 2 ^ 64
    → array < 2 ^ 64
    → crc_array < 2 ^ 32
    → header_of (header_bytes (numbered crc current backup last array crc_array))
      ≡ numbered crc current backup last array crc_array
unfolding header_of
header_of-header_bytes crc current backup last array crc_array a b c d e f =
    let p = number-le32 crc a in
    let q = number-le64 current b in
    let r = number-le64 backup c in
    let s = number-le64 last d in
    let t = number-le64 array e in
    let u = number-le32 crc_array f in λ i. numbered (p i) (q i) (r i) (s i) (t i) (u i)
