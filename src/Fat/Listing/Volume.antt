-- ===== src/Fat/Listing/Volume.antt =====
-- What the program shows of a volume, read off the bytes of its boot sector and its directory.
use ganos.Base.{
  ℕ, ◌+◌, ◌-◌, ◌*◌, ◌/◌, ◌^◌, ◌≤◌, ◌<◌, ◌≡◌, List, [], ◌∷◌, ◌++◌, Bool, true, Mem, Option, codes,
  bytes, All,
}
use ganos.Base.Run.{done}
use ganos.Fat.{Shown, text, decimal, hexadecimal, Disk, read, read_volume}
use ganos.Fat.Listing.Entries.{two_bytes, file_addresses, file_lines}
use ganos.Fat.Listing.{concat_map}

-- The numbers of the boot sector: bytes to a sector, sectors to a cluster, reserved sectors, tables,
-- sectors to a table, and the cluster of the root directory.
module _ (size cluster reserved fats fat_size root : ℕ) where
  -- The first sector of the root directory.
  abbrev pub root_sector : ℕ
  root_sector = reserved + fats * fat_size + (root - 2) * cluster

  unfoldable pub boot_lines : Mem → List Shown
  boot_lines m =
      text (bytes m 3 8)
      ∷ hexadecimal (two_bytes m 19)
      ∷ text (bytes m 71 11)
      ∷ text (bytes m 82 8)
      ∷ text (codes "root directory cluster: ")
      ∷ decimal root
      ∷ text (codes "Cluster Size: ")
      ∷ decimal (cluster * size)
      ∷ text (codes "reserved sectors ")
      ∷ decimal reserved
      ∷ text (codes "Sectors per FAT: ")
      ∷ decimal fat_size
      ∷ text (codes "reserved_sectors: ")
      ∷ decimal reserved
      ∷ text (codes "fats * sectors per fat: 0x")
      ∷ hexadecimal (fats * fat_size)
      ∷ text (codes "root dir sector: ")
      ∷ decimal root
      ∷ text (codes "correct root_dir_sector: 0x")
      ∷ hexadecimal root_sector
      ∷ text (codes "sector: 0x")
      ∷ hexadecimal root_sector
      ∷ text (codes "offset: 0x")
      ∷ hexadecimal (root_sector * size)
      ∷ text (codes "directory entry size: ")
      ∷ hexadecimal 64
      ∷ []

module _ (fopen : List ℕ → Option Disk) (alloc : ℕ → Bool) (stack heap : Mem) (d : Disk) where
  -- The memory with the boot sector.
  abbrev pub boot : Mem
  boot = read d 0 stack

  -- The program behind the opening of the device, for these two numbers of the boot sector.
  Shows : (fat_size root : ℕ) → Type 0
  Shows fat_size root =
      let size = two_bytes boot 11 in
      let first = root_sector size (boot 13) (two_bytes boot 14) (boot 16) fat_size root * size in
      let entries = read d first heap in
      let files = file_addresses entries (boot 13 * size / 64) in
      0 < size
      → 2 ≤ root
      → root < 2 ^ 32
      → first < 2 ^ 32
      → alloc (boot 13 * size) ≡ true
      → All (λ a. two_bytes entries (a + 52) < 32768) files
      → read_volume fopen alloc stack heap d
        ≡ done (
          0,
          boot_lines size (boot 13) (two_bytes boot 14) (boot 16) fat_size root boot
              ++ concat_map (file_lines entries) files,
        )
