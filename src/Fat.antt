-- ===== src/Fat.antt =====
-- tools.bak/fat_reader/fat_reader.c: the boot sector of a FAT32 volume, the place of its root
-- directory, and the listing of the directory's first cluster. Files, memory and the digits that
-- `printf` makes of numbers belong to the C library.
pub mod Listing
use ganos.Base.{
  ℕ, zero, suc, ◌+◌, ◌-◌, ◌*◌, ◌/◌, ◌^◌, List, [], ◌∷◌, ◌++◌, ◌==◌, ltb, leb, if◌then◌else◌, Bool,
  true, false, Mem, Option, none, some, u32, codes, bytes, length, get_or,
}
use ganos.Base.Run.{Run, done, undefined, ◌>>=◌}
use Prim.Native.Nat.{bit_and}

-- Little-endian fields of a packed structure.
abbrev u16_at : Mem → ℕ → ℕ
u16_at m a = m a + 256 * m (a + 1)

abbrev u32_at : Mem → ℕ → ℕ
u32_at m a = u16_at m a + 65536 * u16_at m (a + 2)

-- The fields of `struct bpb` that are read, at their offsets in the packed structure.
pub record Bpb : Type 0 where
  pub oem : List ℕ
  pub bytes_per_sector : ℕ
  pub sectors_per_cluster : ℕ
  pub reserved_sectors : ℕ
  pub number_of_fats : ℕ
  pub number_of_sectors_in_volume : ℕ
  pub sectors_per_fat : ℕ
  pub root_dir_cluster : ℕ
  pub volume_label : List ℕ
  pub fs_type : List ℕ

abbrev pub bpb_at : Mem → Bpb
bpb_at m = record {
  oem = bytes m 3 8;
  bytes_per_sector = u16_at m 11;
  sectors_per_cluster = m 13;
  reserved_sectors = u16_at m 14;
  number_of_fats = m 16;
  number_of_sectors_in_volume = u16_at m 19;
  sectors_per_fat = u32_at m 36;
  root_dir_cluster = u32_at m 44;
  volume_label = bytes m 71 11;
  fs_type = bytes m 82 8;
}

-- The fields of `struct dir_entry` that are read; the structure has 64 bytes.
pub record DirEntry : Type 0 where
  pub short_fname : List ℕ
  pub short_ext : List ℕ
  pub file_attributes : ℕ
  pub first_cluster_high : ℕ
  pub first_cluster_low : ℕ
  pub file_size : ℕ

abbrev pub dir_entry_at : Mem → ℕ → DirEntry
dir_entry_at m a = record {
  short_fname = bytes m (a + 32) 8;
  short_ext = bytes m (a + 40) 3;
  file_attributes = m (a + 43);
  first_cluster_high = u16_at m (a + 52);
  first_cluster_low = u16_at m (a + 58);
  file_size = u32_at m (a + 60);
}

-- What is printed, without the line feeds: text, and numbers as `%d` or `%X` get them. The messages
-- on standard error are left out.
pub data Shown : Type 0 where
  text : List ℕ → Shown
  decimal : ℕ → Shown
  hexadecimal : ℕ → Shown

-- The loops that print a name up to its first space.
pub until_space : List ℕ → List ℕ
until_space [] = []
until_space (c ∷ cs) = let rest = until_space cs in if c == 32 then [] else c ∷ rest

-- `(high << 16) + low` on `int`: a high half from 0x8000 on leaves the type.
cluster_of : DirEntry → Run ℕ
cluster_of e =
    if ltb e.first_cluster_high 32768
    then done (e.first_cluster_high * 2 ^ 16 + e.first_cluster_low)
    else undefined

pub is_listed : DirEntry → Bool
is_listed e = bit_and e.file_attributes 0x12 == 0

-- The body of the loop behind its `break`.
show_entry : DirEntry → Run (List Shown)
unfolding until_space cluster_of
show_entry e = cluster_of e >>= λ cluster. done (
    text (until_space e.short_fname ++ codes "." ++ until_space e.short_ext)
    ∷ text (codes "Size: ")
    ∷ decimal e.file_size
    ∷ text (codes "Cluster: ")
    ∷ decimal cluster
    ∷ [])

-- The loop over `entries[i]`, for the `n` entries from address `a`.
pub list_entries : ℕ → Mem → ℕ → Run (List Shown)
unfolding show_entry is_listed
list_entries zero m a = done []
list_entries (suc n) m a =
    let e = dir_entry_at m a in
    let rest = list_entries n m (a + 64) in
    if get_or e.short_fname 0 0 == 0
    then done []
    else if is_listed e
    then (show_entry e >>= λ shown. rest >>= λ later. done (shown ++ later))
    else rest

-- The sum of `uint32_t`, with its wrap-around.
pub root_dir_sector : Bpb → ℕ
root_dir_sector b = u32 (
    b.reserved_sectors
    + u32 (b.number_of_fats * b.sectors_per_fat)
    + u32 (u32 (b.root_dir_cluster + 2 ^ 32 - 2) * b.sectors_per_cluster))

pub root_dir_offset : Bpb → ℕ
root_dir_offset b = u32 (root_dir_sector b * b.bytes_per_sector)

pub cluster_size : Bpb → ℕ
cluster_size b = b.sectors_per_cluster * b.bytes_per_sector

pub record Disk : Type 0 where
  pub content : Mem
  pub size : ℕ

-- `fread` of what the file has from `offset`; the rest of the block is as it was.
abbrev pub read : Disk → ℕ → Mem → Mem
read d offset before k = if ltb (offset + k) d.size then d.content (offset + k) else before k

-- What is printed of the boot sector.
pub header : Bpb → List Shown
unfolding cluster_size root_dir_sector root_dir_offset
header b =
    text b.oem
    ∷ hexadecimal b.number_of_sectors_in_volume
    ∷ text b.volume_label
    ∷ text b.fs_type
    ∷ text (codes "root directory cluster: ")
    ∷ decimal b.root_dir_cluster
    ∷ text (codes "Cluster Size: ")
    ∷ decimal (cluster_size b)
    ∷ text (codes "reserved sectors ")
    ∷ decimal b.reserved_sectors
    ∷ text (codes "Sectors per FAT: ")
    ∷ decimal b.sectors_per_fat
    ∷ text (codes "reserved_sectors: ")
    ∷ decimal b.reserved_sectors
    ∷ text (codes "fats * sectors per fat: 0x")
    ∷ hexadecimal (u32 (b.number_of_fats * b.sectors_per_fat))
    ∷ text (codes "root dir sector: ")
    ∷ decimal b.root_dir_cluster
    ∷ text (codes "correct root_dir_sector: 0x")
    ∷ hexadecimal (root_dir_sector b)
    ∷ text (codes "sector: 0x")
    ∷ hexadecimal (root_dir_offset b / b.bytes_per_sector)
    ∷ text (codes "offset: 0x")
    ∷ hexadecimal (root_dir_offset b)
    ∷ []

-- `alloc` says whether `malloc` succeeds; `stack` and `heap` are the bytes that are there before.
module _ (fopen : List ℕ → Option Disk) (alloc : ℕ → Bool) (stack heap : Mem) where
  -- The status and what is printed, behind the opening of the device.
  pub read_volume : Disk → Run (ℕ × List Shown)
  unfolding header list_entries
  read_volume d =
      let b = bpb_at (read d 0 stack) in
      if b.bytes_per_sector == 0
      then undefined
      else if alloc (cluster_size b)
      then (list_entries (cluster_size b / 64) (read d (root_dir_offset b) heap) 0 >>= λ shown.
          done (0, header b ++ text (codes "directory entry size: ") ∷ hexadecimal 64 ∷ shown))
      else done (1, header b)

  pub main : List (List ℕ) → Run (ℕ × List Shown)
  unfolding read_volume
  main (argv0 ∷ name ∷ []) = elim (fopen name) [ none ↦ done (1, []) | some d ↦ read_volume d ]
  main argv = done (1, [])
