-- ===== src/Gpt.antt =====
-- tools.bak/configurator/configure.c: a protective MBR entry and the two copies of a GUID partition
-- table, as the writes to the device. `getopt`, `strtol`, `crc32` and the files are parameters.
pub mod Encode
pub mod Layout
mod Image
mod Header
mod Table
use ganos.Base.{
  ℕ, zero, suc, ◌+◌, ◌-◌, ◌*◌, ◌/◌, ◌^◌, List, [], ◌∷◌, ◌++◌, ◌==◌, if◌then◌else◌, Bool, true,
  false, Option, none, some, u32, u64, codes, replicate, Getopt, Scan,
}
use ganos.Base.Run.{Run, done, undefined, ◌>>=◌}
use Encode.{MbrPartitionEntry, GptHeader, GptPartitionEntry, mbr_bytes, header_bytes, array_bytes}

-- `configuration`.
pub record Configuration : Type 0 where
  pub dev_name : Option (List ℕ)
  pub sector_size : ℕ

-- A `fwrite` at the offset that the `fseek` before it has set.
pub record Write : Type 0 where
  pub offset : ℕ
  pub content : List ℕ

abbrev part_data_lba : ℕ
part_data_lba = 34

abbrev part_array_slots : ℕ
part_array_slots = 128

abbrev efi_system_part_lba_size : ℕ
efi_system_part_lba_size = 64 * 1024 * 1024

pub block_part : ℕ → MbrPartitionEntry
block_part lba_count = record {
  status = 0x80;
  first_chs_address = 0 ∷ 2 ∷ 0 ∷ [];
  type = 0xEE;
  last_chs_address = 2 ∷ 32 ∷ 16 ∷ [];
  first_lba = 1;
  sector_count = u32 (lba_count + 2 ^ 64 - 1);
}

-- A slot that the initialiser `{ 0 }` leaves.
empty_part : GptPartitionEntry
empty_part = record {
  partition_type_guid = replicate 16 0;
  unique_partition_guid = replicate 16 0;
  first_lba = 0;
  last_lba = 0;
  attribute_flags = 0;
  partition_name = replicate 36 0;
}

efi_part : ℕ → GptPartitionEntry
efi_part sector_size = record {
  partition_type_guid =
      0x28 ∷ 0x73 ∷ 0x2A ∷ 0xC1 ∷ 0x1F ∷ 0xF8 ∷ 0xD2 ∷ 0x11 ∷ 0xBA ∷ 0x4B ∷ 0x00 ∷ 0xA0 ∷ 0xC9
      ∷ 0x3E ∷ 0xC9 ∷ 0x3B ∷ [];
  unique_partition_guid = replicate 16 0;
  first_lba = part_data_lba;
  last_lba = part_data_lba + efi_system_part_lba_size / sector_size;
  attribute_flags = 1;
  partition_name = codes "EFI System Partition" ++ replicate 16 0;
}

pub part_array : ℕ → List GptPartitionEntry
unfolding efi_part empty_part
part_array sector_size = efi_part sector_size ∷ replicate 127 empty_part

-- The options: `strtol` gives the number as a `size_t`, or that there are no digits; `none` is the
-- exit with status 1.
options_loop : (List ℕ → Option ℕ) → List (ℕ × List ℕ) → Configuration → Option Configuration
options_loop strtol [] c = some c
options_loop strtol ((o, optarg) ∷ options) c =
    let with_name = options_loop strtol options (record c { dev_name = some optarg }) in
    let with_size : Option Configuration = elim (strtol optarg) [
      | none ↦ none
      | some n ↦ options_loop strtol options (record c { sector_size = n })
    ] in
    let rest = options_loop strtol options c in
    if o == 100 then with_name else if o == 115 then with_size else rest

pub configure : Getopt → (List ℕ → Option ℕ) → List (List ℕ) → Option Configuration
unfolding options_loop
configure getopt strtol argv =
    options_loop strtol (getopt (codes "d:s:") argv).options
      (record { dev_name = none; sector_size = 0 })

module _ (crc32 : List ℕ → ℕ) where
  -- `primary_gpt_hdr` before its checksum is stored.
  unsigned_gpt_hdr : ℕ → ℕ → GptHeader
  unfolding part_array
  unsigned_gpt_hdr sector_size lba_count = record {
    signature = codes "EFI PART";
    revision = 0 ∷ 0 ∷ 1 ∷ 0 ∷ [];
    header_size = 92;
    crc32_zlib = 0;
    current_lba = 1;
    backup_lba = u64 (lba_count + 2 ^ 64 - 1);
    first_usable_lba = part_data_lba;
    last_usable_lba = u64 (lba_count + 2 ^ 64 - part_data_lba);
    disk_guid = replicate 16 0;
    part_array_lba = 2;
    part_entry_count = part_array_slots;
    part_entry_size = 128;
    crc32_zlib_part_array = crc32 (array_bytes (part_array sector_size));
  }

  pub primary_gpt_hdr : ℕ → ℕ → GptHeader
  unfolding unsigned_gpt_hdr
  primary_gpt_hdr sector_size lba_count =
      let h = unsigned_gpt_hdr sector_size lba_count in
      record h { crc32_zlib = crc32 (header_bytes h) }

  -- The checksum is taken with the one of the primary header in its place.
  pub backup_gpt_hdr : ℕ → ℕ → GptHeader
  unfolding primary_gpt_hdr
  backup_gpt_hdr sector_size lba_count =
      let primary = primary_gpt_hdr sector_size lba_count in
      let h = record primary {
        current_lba = primary.backup_lba;
        backup_lba = primary.current_lba;
        part_array_lba = u64 (lba_count + 2 ^ 64 - part_array_slots / (sector_size / 128) - 1);
      } in
      record h { crc32_zlib = crc32 (header_bytes h) }

  -- The writes to a device of `size` bytes, in their order; a sector below 128 bytes makes a
  -- divisor 0.
  pub write_table : ℕ → ℕ → Run (List Write)
  unfolding block_part part_array primary_gpt_hdr backup_gpt_hdr
  write_table sector_size size =
      let lba_count = size / sector_size in
      let primary = primary_gpt_hdr sector_size lba_count in
      let backup = backup_gpt_hdr sector_size lba_count in
      let slots = array_bytes (part_array sector_size) in
      if sector_size / 128 == 0
      then undefined
      else done (
          record { offset = 512 - 16 * 4 - 2; content = mbr_bytes (block_part lba_count) }
          ∷ record {
            offset = u64 (sector_size * primary.current_lba);
            content = header_bytes primary;
          }
          ∷ record { offset = u64 (sector_size * primary.part_array_lba); content = slots }
          ∷ record { offset = u64 (sector_size * backup.part_array_lba); content = slots }
          ∷ record {
            offset = u64 (sector_size * backup.current_lba);
            content = header_bytes backup;
          }
          ∷ [])

  -- `fopen` gives the size of a device that it opens, which `fsize` finds by its seeks.
  pub main :
      Getopt → (List ℕ → Option ℕ) → (List ℕ → Option ℕ) → List (List ℕ) → Run (ℕ × List Write)
  unfolding configure write_table
  main getopt strtol fopen argv = elim (configure getopt strtol argv) [
    | none ↦ done (1, [])
    | some c ↦ elim c.dev_name [
      | none ↦ done (1, [])
      | some dev_name ↦ if c.sector_size == 0 then done (1, []) else elim (fopen dev_name) [
        | none ↦ done (1, [])
        | some size ↦ write_table c.sector_size size >>= λ writes. done (0, writes)
      ]
    ]
  ]
