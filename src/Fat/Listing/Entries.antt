-- ===== src/Fat/Listing/Entries.antt =====
-- The files of a directory, read off its bytes.
use ganos.Base.{
  ℕ, zero, suc, ◌+◌, ◌*◌, ◌/◌, ◌%◌, ◌<◌, ◌≡◌, refl, ap, ap₂, ◌∙◌, arith, List, [], ◌∷◌, ◌++◌, ◌==◌,
  Bool, not, ◌&&◌, Mem, codes, bytes, All, map,
}
use ganos.Base.Bits.{bit_and-digit, bit_and-zero}
use ganos.Base.Run.{done}
use ganos.Fat.{dir_entry_at, Shown, text, decimal, is_listed, list_entries}
use ganos.Fat.Listing.{
  take_while, filter, concat_map, entries_at, is_used, files, card, HasSmallClusters,
  list_entries_lem,
}
use Prim.Native.Nat.{bit_and}

-- Little-endian numbers of two and of four bytes.
abbrev pub two_bytes : Mem → ℕ → ℕ
two_bytes m a = m a + 256 * m (a + 1)

abbrev pub four_bytes : Mem → ℕ → ℕ
four_bytes m a = m a + 256 * m (a + 1) + 65536 * m (a + 2) + 16777216 * m (a + 3)

-- The addresses of `n` directory entries of 64 bytes from `a` on.
unfoldable pub addresses : ℕ → ℕ → List ℕ
addresses zero a = []
addresses (suc n) a = a ∷ addresses n (a + 64)

-- Bits 1 (hidden) and 4 (directory) of the attributes are clear.
abbrev pub is_file : Mem → ℕ → Bool
is_file m a = m (a + 43) / 2 % 2 == 0 && m (a + 43) / 16 % 2 == 0

-- The entries before the first whose name starts with a NUL, without directories and hidden files.
unfoldable pub file_addresses : Mem → ℕ → List ℕ
file_addresses m n = filter (is_file m) (take_while (λ a. not (m (a + 32) == 0)) (addresses n 0))

-- The name and its extension up to their first spaces, the size and the cluster of a file.
unfoldable pub file_lines : Mem → ℕ → List Shown
file_lines m a =
    text (
      take_while (λ c. not (c == 32)) (bytes m (a + 32) 8)
      ++ codes "."
      ++ take_while (λ c. not (c == 32)) (bytes m (a + 40) 3))
    ∷ text (codes "Size: ")
    ∷ decimal (four_bytes m (a + 60))
    ∷ text (codes "Cluster: ")
    ∷ decimal (two_bytes m (a + 52) * 65536 + two_bytes m (a + 58))
    ∷ []

mask_lem : (x : ℕ) → bit_and x 0x12 ≡ 2 * (x / 2 % 2) + 16 * (x / 16 % 2)
mask_lem x = omega (
  arith,
  bit_and-digit x 18,
  bit_and-digit (x / 2) 9,
  bit_and-digit (x / 2 / 2) 4,
  bit_and-digit (x / 2 / 2 / 2) 2,
  bit_and-digit (x / 2 / 2 / 2 / 2) 1,
  bit_and-zero (x / 2 / 2 / 2 / 2 / 2),
)

is_listed-is_file : (m : Mem) (a : ℕ) → is_listed (dir_entry_at m a) ≡ is_file m a
unfolding is_listed
is_listed-is_file m a = ground (arith, mask_lem (m (a + 43)))

four_lem : (m : Mem) (a : ℕ) → (dir_entry_at m a).file_size ≡ four_bytes m (a + 60)
four_lem m a =
    let last : m (a + 60 + 2 + 1) ≡ m (a + 60 + 3) = ap m (omega arith) in omega (arith, last)

card-file_lines : (m : Mem) (a : ℕ) → card (dir_entry_at m a) ≡ file_lines m a
unfolding card file_lines
card-file_lines m a = rw (four_lem m a) refl

module _ {A B : Type 0} (f : A → B) where
  take_while-map :
      (p : B → Bool) (xs : List A) → take_while p (map f xs) ≡ map f (take_while (λ x. p (f x)) xs)
  unfolding take_while
  take_while-map p [] = refl
  take_while-map p (x ∷ xs) = ground (arith, take_while-map p xs)

  filter-map :
      (p : B → Bool) (q : A → Bool) (xs : List A)
      → ((x : A) → p (f x) ≡ q x)
      → filter p (map f xs) ≡ map f (filter q xs)
  unfolding filter
  filter-map p q [] same = refl
  filter-map p q (x ∷ xs) same = ground (arith, same x, filter-map p q xs same)

  concat_map-map :
      {C : Type 0} (g : B → List C) (h : A → List C) (xs : List A)
      → ((x : A) → g (f x) ≡ h x)
      → concat_map g (map f xs) ≡ concat_map h xs
  unfolding concat_map
  concat_map-map g h [] same = refl
  concat_map-map g h (x ∷ xs) same = ap₂ (λ ys zs. ys ++ zs) (same x) (concat_map-map g h xs same)

entries_at-map : (n : ℕ) (m : Mem) (a : ℕ) → entries_at n m a ≡ map (dir_entry_at m) (addresses n a)
unfolding entries_at addresses
entries_at-map zero m a = refl
entries_at-map (suc n) m a = ap (λ es. dir_entry_at m a ∷ es) (entries_at-map n m (a + 64))

files-map : (n : ℕ) (m : Mem) → files (entries_at n m 0) ≡ map (dir_entry_at m) (file_addresses m n)
unfolding files file_addresses is_used
files-map n m =
    ap (λ es. filter is_listed (take_while is_used es)) (entries_at-map n m 0)
    ∙ ap (filter is_listed) (take_while-map (dir_entry_at m) is_used (addresses n 0))
    ∙ filter-map (dir_entry_at m) is_listed (is_file m) _ (is_listed-is_file m)

small-map :
    (m : Mem) (starts : List ℕ)
    → All (λ a. two_bytes m (a + 52) < 32768) starts
    → HasSmallClusters (map (dir_entry_at m) starts)
unfolding HasSmallClusters
small-map m [] small = record {}
small-map m (a ∷ starts) small = (small.0, small-map m starts small.1)

pub list_entries-file_lines :
    (n : ℕ) (m : Mem)
    → All (λ a. two_bytes m (a + 52) < 32768) (file_addresses m n)
    → list_entries n m 0 ≡ done (concat_map (file_lines m) (file_addresses m n))
list_entries-file_lines n m small =
    list_entries_lem n m 0 (rw (files-map n m) (small-map m (file_addresses m n) small))
    ∙ ap (λ es. done (concat_map card es)) (files-map n m)
    ∙ ap done (
        concat_map-map (dir_entry_at m) card (file_lines m) (file_addresses m n)
          (card-file_lines m))
