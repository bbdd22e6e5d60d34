-- ===== src/Fat/Listing.antt =====
-- The listing of a directory as a list, and the place of the root directory in a volume.
mod Tests
pub mod Entries
pub mod Volume
use ganos.Base.{
  ℕ, zero, suc, ◌+◌, ◌-◌, ◌*◌, ◌/◌, ◌^◌, ◌≤◌, ◌<◌, ◌≡◌, refl, sym, ap, ap₂, ◌∙◌, arith, List, [],
  ◌∷◌, ◌++◌, ◌==◌, ltb, if◌then◌else◌, Bool, true, false, not, Mem, Option, none, some, u32, codes,
  bytes, get_or, All,
}
use ganos.Base.Run.{Run, done, undefined, ◌>>=◌}
use native.Mathlib.Nat.{mul-le-mul_left}
use ganos.Fat.{
  Bpb, bpb_at, DirEntry, dir_entry_at, Shown, text, decimal, hexadecimal, until_space, cluster_of,
  is_listed, show_entry, list_entries, root_dir_sector, root_dir_offset, cluster_size, Disk, read,
  header, read_volume,
}

pub take_while : {A : Type 0} → (A → Bool) → List A → List A
take_while p [] = []
take_while p (x ∷ xs) = if p x then x ∷ take_while p xs else []

pub filter : {A : Type 0} → (A → Bool) → List A → List A
filter p [] = []
filter p (x ∷ xs) = if p x then x ∷ filter p xs else filter p xs

pub concat_map : {A B : Type 0} → (A → List B) → List A → List B
concat_map f [] = []
concat_map f (x ∷ xs) = f x ++ concat_map f xs

-- `n` directory entries from address `a`.
pub entries_at : ℕ → Mem → ℕ → List DirEntry
entries_at zero m a = []
entries_at (suc n) m a = dir_entry_at m a ∷ entries_at n m (a + 64)

pub is_used : DirEntry → Bool
is_used e = not (get_or e.short_fname 0 0 == 0)

-- The entries before the first unused one, without directories and hidden files.
pub files : List DirEntry → List DirEntry
files entries = filter is_listed (take_while is_used entries)

-- What is shown of a file.
pub card : DirEntry → List Shown
card e =
    text (
      take_while (λ c. not (c == 32)) e.short_fname
      ++ codes "."
      ++ take_while (λ c. not (c == 32)) e.short_ext)
    ∷ text (codes "Size: ")
    ∷ decimal e.file_size
    ∷ text (codes "Cluster: ")
    ∷ decimal (e.first_cluster_high * 65536 + e.first_cluster_low)
    ∷ []

pub HasSmallClusters : List DirEntry → Type 0
HasSmallClusters entries = All (λ e. e.first_cluster_high < 32768) entries

until_space_lem : (cs : List ℕ) → until_space cs ≡ take_while (λ c. not (c == 32)) cs
unfolding until_space take_while
until_space_lem [] = refl
until_space_lem (c ∷ cs) = ground (arith, until_space_lem cs)

show_entry_lem : (e : DirEntry) → e.first_cluster_high < 32768 → show_entry e ≡ done (card e)
unfolding show_entry card cluster_of
show_entry_lem e small =
    rw (until_space_lem e.short_fname, until_space_lem e.short_ext) (ground arith)

-- The entry and the later ones, whether it is listed or not, and used or not.
module _ (e : DirEntry) (es : List DirEntry) (later : Run (List Shown)) where
  listed_cases :
      (listed : Bool)
      → HasSmallClusters (if listed then e ∷ files es else files es)
      → (HasSmallClusters (files es) → later ≡ done (concat_map card (files es)))
      → (if listed then (show_entry e >>= λ shown. later >>= λ l. done (shown ++ l)) else later)
        ≡ done (concat_map card (if listed then e ∷ files es else files es))
  unfolding HasSmallClusters concat_map
  listed_cases true small ih = rw (show_entry_lem e small.0, ih small.1) refl
  listed_cases false small ih = ih small

  used_cases :
      (unused : Bool)
      → HasSmallClusters (filter is_listed (if not unused then e ∷ take_while is_used es else []))
      → (HasSmallClusters (files es) → later ≡ done (concat_map card (files es)))
      → (if unused
          then done []
          else if is_listed e
          then (show_entry e >>= λ shown. later >>= λ l. done (shown ++ l))
          else later)
        ≡ done (
            concat_map card
              (filter is_listed (if not unused then e ∷ take_while is_used es else [])))
  unfolding files filter concat_map
  used_cases true small ih = refl
  used_cases false small ih = listed_cases (is_listed e) small ih

-- The listing of the `n` entries from an address shows the files among them in order, if their
-- clusters are below 2^31.
list_entries_lem :
    (n : ℕ) (m : Mem) (a : ℕ)
    → HasSmallClusters (files (entries_at n m a))
    → list_entries n m a ≡ done (concat_map card (files (entries_at n m a)))
unfolding list_entries files filter take_while entries_at concat_map is_used
list_entries_lem zero m a small = refl
list_entries_lem (suc n) m a small =
    used_cases (dir_entry_at m a) (entries_at n m (a + 64)) (list_entries n m (a + 64))
      (get_or (dir_entry_at m a).short_fname 0 0 == 0) small (list_entries_lem n m (a + 64))

sum_fits : (r x y : ℕ) → r + x + y < 2 ^ 32 → u32 (r + u32 x + u32 y) ≡ r + x + y
sum_fits r x y small = omega arith

-- The sum does not wrap if it is below 2^32.
pub root_dir_sector_lem :
    (b : Bpb)
    → 2 ≤ b.root_dir_cluster
    → b.root_dir_cluster < 2 ^ 32
    → let sectors =
        b.reserved_sectors
        + b.number_of_fats * b.sectors_per_fat
        + (b.root_dir_cluster - 2) * b.sectors_per_cluster in
      sectors < 2 ^ 32 → root_dir_sector b ≡ sectors
unfolding root_dir_sector
root_dir_sector_lem b from_two wide fits =
    let cluster : u32 (b.root_dir_cluster + 2 ^ 32 - 2) ≡ b.root_dir_cluster - 2 = omega arith in
    ap
      (λ c. u32 (
        b.reserved_sectors
        + u32 (b.number_of_fats * b.sectors_per_fat)
        + u32 (c * b.sectors_per_cluster)))
      cluster
    ∙ sum_fits b.reserved_sectors (b.number_of_fats * b.sectors_per_fat)
        ((b.root_dir_cluster - 2) * b.sectors_per_cluster) fits

pub scaled_fits : (sectors size : ℕ) → 0 < size → sectors * size < 2 ^ 32 → sectors < 2 ^ 32
scaled_fits sectors size positive small =
    omega (arith, mul-le-mul_left {m = 1} {n = size} sectors (omega arith))

-- For a root directory from cluster 2 on and sectors that are not empty, the offset is that of the
-- FAT32 layout, the reserved sectors and the tables before cluster 2, if it is below 2^32.
pub root_dir_offset_lem :
    (b : Bpb)
    → 2 ≤ b.root_dir_cluster
    → b.root_dir_cluster < 2 ^ 32
    → 0 < b.bytes_per_sector
    → let sectors =
        b.reserved_sectors
        + b.number_of_fats * b.sectors_per_fat
        + (b.root_dir_cluster - 2) * b.sectors_per_cluster in
      sectors * b.bytes_per_sector < 2 ^ 32 → root_dir_offset b ≡ sectors * b.bytes_per_sector
unfolding root_dir_offset
root_dir_offset_lem b from_two wide positive small =
    let fits = scaled_fits _ b.bytes_per_sector positive small in
    ap (λ s. u32 (s * b.bytes_per_sector)) (root_dir_sector_lem b from_two wide fits) ∙ omega arith
