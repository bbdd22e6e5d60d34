-- ===== src/Gpt/Table.antt =====
-- The table as a reader of the device finds it, who follows the numbers of the primary header.
mod Tests
use ganos.Base.{
  Getopt, Option, some, inl, inr, ap₂, u64, ℕ, zero, suc, ◌+◌, ◌-◌, ◌*◌, ◌/◌, ◌%◌, ◌^◌, ◌≤◌, ◌<◌,
  ◌≡◌, refl, sym, ap, ◌∙◌, arith, List, [], ◌∷◌, ◌++◌, length, Mem, bytes, take, drop, le32, le64,
  codes, replicate,
}
use ganos.Base.Run.{done, ◌>>=◌}
use ganos.Gpt.{
  configure, main, Write, write_table, unsigned_gpt_hdr, primary_gpt_hdr, backup_gpt_hdr,
  part_array,
}
use ganos.Gpt.Header.{header_of, header_of-header_bytes}
use ganos.Gpt.Encode.{GptHeader, header_bytes, array_bytes}
use ganos.Gpt.Layout.{
  IsUsual, sector_512, sector_4096, writes_of, writes_of-IsLaidOut, mbr-length, gpt_hdr-Consistent,
  primary-length, backup-length, array-length,
}
use ganos.Gpt.Image.{image, region, image-Holds, image-Outside, Outside}

-- A table of two copies on a device, for a reader who knows the size of a sector: the primary
-- header is in sector 1, and names the place of the backup header, its own entries and, through the
-- backup header, their copy.
pub record IsTable (crc32 : List ℕ → ℕ) (sector_size : ℕ) (device : Mem) : Type 0 where
  pub primary : GptHeader
  pub backup : GptHeader
  pub reads_primary : header_of (region device sector_size 92) ≡ primary
  pub reads_backup : header_of (region device (sector_size * primary.backup_lba) 92) ≡ backup
  pub signature_is : primary.signature ≡ codes "EFI PART"
  pub checksum_is : primary.crc32_zlib ≡ crc32 (header_bytes (record primary { crc32_zlib = 0 }))
  pub entries_checksum_is :
      primary.crc32_zlib_part_array
      ≡ crc32 (
          region device
            (sector_size * primary.part_array_lba)
            (primary.part_entry_count * primary.part_entry_size))
  pub own_lba : (primary.current_lba ≡ 1) × (backup.current_lba ≡ primary.backup_lba)
  pub same_entries :
      region device (sector_size * backup.part_array_lba) 16384
      ≡ region device (sector_size * primary.part_array_lba) 16384
  pub ordered :
      (primary.part_array_lba + 16384 / sector_size ≤ primary.first_usable_lba)
      × (primary.last_usable_lba < backup.part_array_lba)
      × (backup.part_array_lba + 16384 / sector_size ≡ backup.current_lba)

at_offset :
    (d : Mem) {a b k n : ℕ} {cs : List ℕ} → a ≡ b → k ≡ n → region d a k ≡ cs → region d b n ≡ cs
at_offset d p q h = sym (ap₂ (region d) p q) ∙ h

module _ (crc32 : List ℕ → ℕ) (word : (cs : List ℕ) → crc32 cs < 2 ^ 32) where
  header_of_primary :
      (s n : ℕ) → header_of (header_bytes (primary_gpt_hdr crc32 s n)) ≡ primary_gpt_hdr crc32 s n
  unfolding primary_gpt_hdr unsigned_gpt_hdr
  header_of_primary s n =
      header_of-header_bytes _ 1 (u64 (n + 2 ^ 64 - 1)) (u64 (n + 2 ^ 64 - 34)) 2 _ (word _)
        (omega arith) (omega arith) (omega arith) (omega arith) (word _)

  header_of_backup :
      (s n : ℕ) → header_of (header_bytes (backup_gpt_hdr crc32 s n)) ≡ backup_gpt_hdr crc32 s n
  unfolding backup_gpt_hdr primary_gpt_hdr unsigned_gpt_hdr
  header_of_backup s n =
      header_of-header_bytes _ (u64 (n + 2 ^ 64 - 1)) 1 (u64 (n + 2 ^ 64 - 34))
        (u64 (n + 2 ^ 64 - 128 / (s / 128) - 1)) _ (word _) (omega arith) (omega arith)
        (omega arith) (omega arith) (word _)

  -- The offsets stay below 2^64.
  offsets :
      (s size : ℕ)
      → IsUsual s
      → 68 * s ≤ size
      → size < 2 ^ 63
      → let n = size / s in
        (u64 (s * (primary_gpt_hdr crc32 s n).current_lba) ≡ s)
        × (u64 (s * (primary_gpt_hdr crc32 s n).part_array_lba)
            ≡ s * (primary_gpt_hdr crc32 s n).part_array_lba)
        × (u64 (s * (backup_gpt_hdr crc32 s n).part_array_lba)
            ≡ s * (backup_gpt_hdr crc32 s n).part_array_lba)
        × (u64 (s * (backup_gpt_hdr crc32 s n).current_lba)
            ≡ s * (primary_gpt_hdr crc32 s n).backup_lba)
  unfolding backup_gpt_hdr primary_gpt_hdr unsigned_gpt_hdr
  offsets _ size sector_512 fits small = (omega arith, omega arith, omega arith, omega arith)
  offsets _ size sector_4096 fits small = (omega arith, omega arith, omega arith, omega arith)

  -- The five writes can be read back from where they went.
  stored :
      (s size : ℕ) (m : Mem)
      → IsUsual s
      → 68 * s ≤ size
      → size < 2 ^ 63
      → let n = size / s in
        let d = image (writes_of crc32 s n) m in
        (region d s 92 ≡ header_bytes (primary_gpt_hdr crc32 s n))
        × (region d (s * (primary_gpt_hdr crc32 s n).part_array_lba) 16384
            ≡ array_bytes (part_array s))
        × (region d (s * (backup_gpt_hdr crc32 s n).part_array_lba) 16384
            ≡ array_bytes (part_array s))
        × (region d (s * (primary_gpt_hdr crc32 s n).backup_lba) 92
            ≡ header_bytes (backup_gpt_hdr crc32 s n))
  stored s size m usual fits small =
      let n = size / s in
      let (p, q, r, t) = offsets s size usual fits small in
      let (runs, laid) = writes_of-IsLaidOut crc32 s size usual fits small in
      let d = image (writes_of crc32 s n) m in
      let h = image-Holds 446 size (writes_of crc32 s n) m laid in
      (
        at_offset d p (primary-length crc32 s n) h.1.0,
        at_offset d q (array-length crc32 s) h.1.1.0,
        at_offset d r (array-length crc32 s) h.1.1.1.0,
        at_offset d t (backup-length crc32 s n) h.1.1.1.1.0,
      )

  stored-IsTable :
      (s n : ℕ) (d : Mem)
      → let primary = primary_gpt_hdr crc32 s n in
        let backup = backup_gpt_hdr crc32 s n in
        (region d s 92 ≡ header_bytes primary)
          × (region d (s * primary.part_array_lba) 16384 ≡ array_bytes (part_array s))
          × (region d (s * backup.part_array_lba) 16384 ≡ array_bytes (part_array s))
          × (region d (s * primary.backup_lba) 92 ≡ header_bytes backup)
          × (primary.part_array_lba + 16384 / s ≤ primary.first_usable_lba)
          × (primary.last_usable_lba < backup.part_array_lba)
          × (backup.part_array_lba + 16384 / s ≡ backup.current_lba)
        → IsTable crc32 s d
  unfolding backup_gpt_hdr primary_gpt_hdr unsigned_gpt_hdr
  stored-IsTable s n d (p, q, r, t, low, high, next) = record {
    primary = primary_gpt_hdr crc32 s n;
    backup = backup_gpt_hdr crc32 s n;
    reads_primary = ap header_of p ∙ header_of_primary s n;
    reads_backup = ap header_of t ∙ header_of_backup s n;
    signature_is = refl;
    checksum_is = refl;
    entries_checksum_is = ap crc32 (sym q);
    own_lba = (refl, refl);
    same_entries = r ∙ sym q;
    ordered = (low, high, next);
  }

  -- The data sectors are in none of the writes.
  data-Outside :
      (s size k : ℕ)
      → IsUsual s
      → 68 * s ≤ size
      → size < 2 ^ 63
      → s * 34 ≤ k
      → k < s * (size / s - 33)
      → Outside k (writes_of crc32 s (size / s))
  unfolding backup_gpt_hdr primary_gpt_hdr unsigned_gpt_hdr
  data-Outside _ size k sector_512 fits small low high = (
    inr (omega (arith, mbr-length crc32 (size / 512))),
    (
      inr (omega arith),
      (
        inr (omega (arith, array-length crc32 512)),
        (inl (omega arith), (inl (omega arith), record {})),
      ),
    ),
  )
  data-Outside _ size k sector_4096 fits small low high = (
    inr (omega (arith, mbr-length crc32 (size / 4096))),
    (
      inr (omega arith),
      (
        inr (omega (arith, array-length crc32 4096)),
        (inl (omega arith), (inl (omega arith), record {})),
      ),
    ),
  )

  -- What the writes leave: the table, and the data sectors as before.
  write_table-IsTable :
      (sector_size size : ℕ) (device : Mem)
      → IsUsual sector_size
      → 68 * sector_size ≤ size
      → size < 2 ^ 63
      → (writes : List Write) × (write_table crc32 sector_size size ≡ done writes)
        × IsTable crc32 sector_size (image writes device)
        × ((k : ℕ)
            → sector_size * 34 ≤ k
            → k < sector_size * (size / sector_size - 33)
            → image writes device k ≡ device k)
  write_table-IsTable s size device usual fits small =
      let n = size / s in
      let d = image (writes_of crc32 s n) device in
      let (p, q, r, t) = stored s size device usual fits small in
      let (_, _, (next, low, high)) = gpt_hdr-Consistent crc32 s size usual fits small in
      (
        writes_of crc32 s n,
        (writes_of-IsLaidOut crc32 s size usual fits small).0,
        stored-IsTable s n d (p, q, r, t, low, high, next),
        λ k from upto.
            image-Outside (writes_of crc32 s n) device k
              (data-Outside s size k usual fits small from upto),
      )

  usual-positive : (s : ℕ) → IsUsual s → 0 < s
  usual-positive _ sector_512 = omega arith
  usual-positive _ sector_4096 = omega arith

  main-write_table :
      (getopt : Getopt) (strtol fopen : List ℕ → Option ℕ) (argv : List (List ℕ))
      (dev_name : List ℕ) (sector_size size : ℕ)
      → configure getopt strtol argv
        ≡ some (record { dev_name = some dev_name; sector_size = sector_size })
      → fopen dev_name ≡ some size
      → 0 < sector_size
      → main crc32 getopt strtol fopen argv
        ≡ (write_table crc32 sector_size size >>= λ writes. done (0, writes))
  unfolding main
  main-write_table getopt strtol fopen argv dev_name s size configured opens positive =
      ground (arith, configured, opens, positive)

  -- If `crc32` gives words of 32 bits, then for options that name a device that opens and a usual
  -- size of its sectors, of which it has 68 at least in less than 2^63 bytes, `main` returns 0 and its
  -- writes leave a table that can be read back: from sector 1 the primary header with its own number,
  -- its checksum and that of the entries it points to, and through it, in the sector it names, the
  -- backup header, which points to a copy of the entries; the usable sectors lie between the two
  -- arrays and the backup array ends where the backup header starts. The bytes of the sectors from 34
  -- on, up to the 33 last ones, are as before.
  pub main-IsTable :
      (getopt : Getopt) (strtol fopen : List ℕ → Option ℕ) (argv : List (List ℕ))
      (dev_name : List ℕ) (sector_size size : ℕ) (device : Mem)
      → configure getopt strtol argv
        ≡ some (record { dev_name = some dev_name; sector_size = sector_size })
      → fopen dev_name ≡ some size
      → IsUsual sector_size
      → 68 * sector_size ≤ size
      → size < 2 ^ 63
      → (writes : List Write) × (main crc32 getopt strtol fopen argv ≡ done (0, writes))
        × IsTable crc32 sector_size (image writes device)
        × ((k : ℕ)
            → sector_size * 34 ≤ k
            → k < sector_size * (size / sector_size - 33)
            → image writes device k ≡ device k)
  main-IsTable getopt strtol fopen argv dev_name s size device configured opens usual fits small =
      let (writes, runs, table, kept) = write_table-IsTable s size device usual fits small in
      (
        writes,
        main-write_table getopt strtol fopen argv dev_name s size configured opens
              (usual-positive s usual)
            ∙ ap (λ r. r >>= λ writes. done (0, writes)) runs,
        table,
        kept,
      )
