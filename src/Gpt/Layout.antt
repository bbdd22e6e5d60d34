-- ===== src/Gpt/Layout.antt =====
-- Where the writes go: in ascending order, without an overlap, inside the device.
mod Tests
use ganos.Base.{
  ℕ, zero, suc, ◌+◌, ◌-◌, ◌*◌, ◌/◌, ◌^◌, ◌≤◌, ◌<◌, ◌≡◌, refl, sym, ap, ◌∙◌, arith, List, [], ◌∷◌,
  ◌++◌, length, length-append, replicate, u64, Option, none, some, Getopt, ◌⊎◌,
}
use ganos.Base.Run.{Run, done}
use ganos.Gpt.{
  Configuration, Write, write_table, block_part, part_array, empty_part, efi_part, unsigned_gpt_hdr,
  primary_gpt_hdr, backup_gpt_hdr, configure, main,
}
use ganos.Gpt.Encode.{
  GptHeader, GptPartitionEntry, mbr_bytes, header_bytes, array_bytes, part_bytes,
}

-- The writes lie one behind the other from `start` on, the last one ends by `size`.
unfoldable pub IsLaidOut : ℕ → List Write → ℕ → Type 0
IsLaidOut start [] size = start ≤ size
IsLaidOut start (w ∷ ws) size = (start ≤ w.offset) × IsLaidOut (w.offset + length w.content) ws size

pub data IsUsual : ℕ → Type 0 where
  sector_512 : IsUsual 512
  sector_4096 : IsUsual 4096

module _ (crc32 : List ℕ → ℕ) where
  pub mbr-length : (n : ℕ) → length (mbr_bytes (block_part n)) ≡ 16
  unfolding block_part
  mbr-length n = refl

  pub primary-length : (s n : ℕ) → length (header_bytes (primary_gpt_hdr crc32 s n)) ≡ 92
  unfolding primary_gpt_hdr unsigned_gpt_hdr
  primary-length s n = refl

  pub backup-length : (s n : ℕ) → length (header_bytes (backup_gpt_hdr crc32 s n)) ≡ 92
  unfolding backup_gpt_hdr primary_gpt_hdr unsigned_gpt_hdr
  backup-length s n = refl

  empty-length : (n : ℕ) → length (array_bytes (replicate n empty_part)) ≡ n * 128
  unfolding empty_part
  empty-length zero = refl
  empty-length (suc n) = omega (arith, empty-length n)

  pub array-length : (s : ℕ) → length (array_bytes (part_array s)) ≡ 16384
  unfolding part_array efi_part
  array-length s =
      length-append (part_bytes (efi_part s)) (array_bytes (replicate 127 empty_part))
      ∙ ap (λ n. 128 + n) (empty-length 127)

  -- The five writes, from the numbers that place them.
  abbrev pub writes_of : ℕ → ℕ → List Write
  writes_of s n =
      record { offset = 446; content = mbr_bytes (block_part n) }
      ∷ record {
        offset = u64 (s * (primary_gpt_hdr crc32 s n).current_lba);
        content = header_bytes (primary_gpt_hdr crc32 s n);
      }
      ∷ record {
        offset = u64 (s * (primary_gpt_hdr crc32 s n).part_array_lba);
        content = array_bytes (part_array s);
      }
      ∷ record {
        offset = u64 (s * (backup_gpt_hdr crc32 s n).part_array_lba);
        content = array_bytes (part_array s);
      }
      ∷ record {
        offset = u64 (s * (backup_gpt_hdr crc32 s n).current_lba);
        content = header_bytes (backup_gpt_hdr crc32 s n);
      }
      ∷ []

  -- The offsets in order, for the lengths of the structures.
  laid_out :
      (s n size : ℕ)
      → 462 ≤ u64 (s * 1)
      → u64 (s * 1) + 92 ≤ u64 (s * 2)
      → u64 (s * 2) + 16384 ≤ u64 (s * u64 (n + 2 ^ 64 - 128 / (s / 128) - 1))
      → u64 (s * u64 (n + 2 ^ 64 - 128 / (s / 128) - 1)) + 16384 ≤ u64 (s * u64 (n + 2 ^ 64 - 1))
      → u64 (s * u64 (n + 2 ^ 64 - 1)) + 92 ≤ size
      → IsLaidOut 446 (writes_of s n) size
  unfolding IsLaidOut backup_gpt_hdr primary_gpt_hdr unsigned_gpt_hdr
  laid_out s n size a b c d e = (
    omega arith,
    (
      omega (arith, mbr-length n),
      (
        omega (arith, primary-length s n),
        (
          omega (arith, array-length s),
          (omega (arith, array-length s), omega (arith, backup-length s n)),
        ),
      ),
    ),
  )

  pub writes_of-IsLaidOut :
      (sector_size size : ℕ)
      → IsUsual sector_size
      → 68 * sector_size ≤ size
      → size < 2 ^ 63
      → (write_table crc32 sector_size size ≡ done (writes_of sector_size (size / sector_size)))
        × IsLaidOut 446 (writes_of sector_size (size / sector_size)) size
  unfolding write_table
  writes_of-IsLaidOut _ size sector_512 fits small = (
    refl,
    laid_out 512 (size / 512) size (omega arith) (omega arith) (omega arith) (omega arith)
        (omega arith),
  )
  writes_of-IsLaidOut _ size sector_4096 fits small = (
    refl,
    laid_out 4096 (size / 4096) size (omega arith) (omega arith) (omega arith) (omega arith)
        (omega arith),
  )

  -- On a device of at least 68 sectors, of one of the usual sizes, and of less than 2^63 bytes, the
  -- table is written as five structures in ascending order, none over another, and the last ends
  -- inside the device.
  pub write_table-IsLaidOut :
      (sector_size size : ℕ)
      → IsUsual sector_size
      → 68 * sector_size ≤ size
      → size < 2 ^ 63
      → (writes : List Write) × (write_table crc32 sector_size size ≡ done writes)
        × (length writes ≡ 5)
        × IsLaidOut 446 writes size
  write_table-IsLaidOut sector_size size usual fits small =
      let (runs, laid) = writes_of-IsLaidOut sector_size size usual fits small in
      (writes_of sector_size (size / sector_size), runs, refl, laid)

  -- On a device of at least 68 sectors of one of the usual sizes and of less than 2^63 bytes, each
  -- header names the other one's sector, the backup array ends where the backup header starts, and
  -- the usable sectors lie between the two arrays.
  pub gpt_hdr-Consistent :
      (sector_size size : ℕ)
      → IsUsual sector_size
      → 68 * sector_size ≤ size
      → size < 2 ^ 63
      → let primary = primary_gpt_hdr crc32 sector_size (size / sector_size) in
        let backup = backup_gpt_hdr crc32 sector_size (size / sector_size) in
        (primary.backup_lba ≡ backup.current_lba)
        × (backup.backup_lba ≡ primary.current_lba)
        × ((backup.part_array_lba + 16384 / sector_size ≡ backup.current_lba)
            × (primary.part_array_lba + 16384 / sector_size ≤ primary.first_usable_lba)
            × (primary.last_usable_lba < backup.part_array_lba))
  unfolding backup_gpt_hdr primary_gpt_hdr unsigned_gpt_hdr
  gpt_hdr-Consistent _ size sector_512 fits small =
      (refl, refl, (omega arith, omega arith, omega arith))
  gpt_hdr-Consistent _ size sector_4096 fits small =
      (refl, refl, (omega arith, omega arith, omega arith))
