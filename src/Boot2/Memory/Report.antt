-- ===== src/Boot2/Memory/Report.antt =====
-- What `entry32` shows when the memory map is empty.
use ganos.Base.{
  ap₂, ℕ, ◌+◌, ◌≤◌, ◌<◌, ◌^◌, ◌≡◌, ◌≢◌, ◌⊎◌, refl, ap, ◌∙◌, arith, List, [], ◌∷◌, Mem, some, codes,
}
use ganos.Base.Run.{done, >>=-done}
use ganos.Boot2.{State, Display}
use ganos.Boot2.Printf.{printf}
use ganos.Boot2.Printf.Pieces.{Piece, text, unsigned, signed, hex, pointer}
use ganos.Boot2.Printf.Lines.{Far, Far-refl, put_line}
use ganos.Boot2.Smbios.{
  IsFirst, locate_smbios_entry, locate_smbios_entry-IsFirst, locate_smbios_entry_ext,
}
use ganos.Boot2.Memory.Screen.{Cleared, start_text, Reports, print_next}
use ganos.Boot2.Memory.{
  show_system, SysInfo, entry32, sum_entries, version_of, address_of, no_totals,
}

-- The lines of the report.
abbrev pub greeting : List Piece
greeting = text (codes "Entered protected mode.") ∷ []

abbrev pub entries_line : ℕ → List Piece
entries_line count = text (codes "SMAP entries: ") ∷ signed count ∷ []

abbrev pub no_bytes : List ℕ → List Piece
no_bytes name = text name ∷ unsigned 0 ∷ text (codes " bytes") ∷ []

abbrev pub address_line : ℕ → List Piece
address_line p = text (codes "smbios is at address 0x") ∷ pointer p ∷ []

abbrev pub version_line : ℕ → ℕ → List Piece
version_line major minor =
    text (codes "smbios version is ") ∷ signed major ∷ text (codes ".") ∷ signed minor ∷ []

abbrev pub drive_line : ℕ → List Piece
drive_line number = text (codes "Drive number is ") ∷ hex number ∷ text (codes "h") ∷ []

abbrev pub sector_line : ℕ → List Piece
sector_line size = text (codes "Bytes per sector is ") ∷ unsigned size ∷ []

abbrev pub report : SysInfo → (p major minor : ℕ) → List (List Piece)
report system p major minor =
    greeting
    ∷ entries_line 0
    ∷ no_bytes (codes "Total system memory: ")
    ∷ no_bytes (codes "Usable system memory: ")
    ∷ no_bytes (codes "Reclaimable memory: ")
    ∷ address_line p
    ∷ version_line major minor
    ∷ drive_line system.drive_number
    ∷ sector_line system.sector_size
    ∷ []

-- An empty memory map, and numbers that fit their words.
pub record IsSmall (system : SysInfo) : Type 0 where
  pub no_entries : system.count ≡ 0
  pub drive_number : system.drive_number < 2 ^ 32
  pub sector_size : system.sector_size < 2 ^ 32

-- The anchor is found at `p`, which has a version behind it.
pub record IsFound (m : Mem) (p : ℕ) : Type 0 where
  pub found : locate_smbios_entry m ≡ some p
  pub major : m (p + 6) < 256
  pub minor : m (p + 7) < 256

found-high : (m : Mem) (p : ℕ) → locate_smbios_entry m ≡ some p → (0xF0000 ≤ p) × (p < 0x100000)
found-high m p h =
    let (i, e, l, _, _) : IsFirst m 4096 0xF0000 (some p) =
      rw h at (locate_smbios_entry-IsFirst m) in
    (omega (arith, e), omega (arith, e, l))

-- Both sides read the same at and behind the anchor.
version_kept :
    (m o : Mem) (p : ℕ)
    → ((k : ℕ) → 0xF0000 ≤ k → m k ≡ o k)
    → IsFound o p
    → version_of m (some p) ≡ done (o (p + 6), o (p + 7))
unfolding version_of
version_kept m o p same h =
    let (low, _) = found-high o p h.found in
    ap₂ (λ (a b : ℕ). done (a, b)) (same (p + 6) (omega arith)) (same (p + 7) (omega arith))

-- From an index inside it, the screen of 80 by 25 leaves the area of the search as it was.
high_kept : (s u t : State) (k : ℕ) → Cleared s u → Far u t → 0xF0000 ≤ k → t.mem k ≡ s.mem k
high_kept s u t k c f low =
    let b : u.screen.buffer ≡ 0xB8000 = ap (λ (d : Display). d.buffer) c.screen_is in
    f.high k (omega (arith, b, low)) ∙ ground (arith, c.mem_is k, low)

module _ (system : SysInfo) (small : IsSmall system) (s u : State) (c : Cleared s u) (p : ℕ)
    (found : IsFound s.mem p) (wide : u.screen.width ≢ 0) where
  -- The lines from the search on.
  show_system-Reports :
      (s0 : State)
      → Far u s0
      → (t : State) × (show_system 12 system s0 ≡ done t)
        × Reports
            (address_line p
              ∷ version_line (s.mem (p + 6)) (s.mem (p + 7))
              ∷ drive_line system.drive_number
              ∷ sector_line system.sector_size
              ∷ [])
            s0
            t
  unfolding show_system Reports address_of
  show_system-Reports s0 far =
      let (low, high) = found-high s.mem p found.found in
      let located : locate_smbios_entry s0.mem ≡ some p =
        locate_smbios_entry_ext s0.mem s.mem (λ k l. high_kept s u s0 k c far l) ∙ found.found in
      let a = print_next (address_line p) u s0 wide far (omega (arith, low, high)) in
      let s1 = put_line a.line s0 in
      let address =
        ap (λ o. printf 12 (codes "smbios is at address 0x%p\r\n") (address_of o ∷ []) s0) located
        ∙ a.runs in
      let version =
        ap (version_of s1.mem) located
        ∙ version_kept s1.mem s.mem p (λ k l. high_kept s u s1 k c a.far l) found in
      let b =
        print_next (version_line (s.mem (p + 6)) (s.mem (p + 7))) u s1 wide a.far
          (omega (arith, found.major, found.minor)) in
      let s2 = put_line b.line s1 in
      let d =
        print_next (drive_line system.drive_number) u s2 wide b.far
          (omega (arith, small.drive_number)) in
      let s3 = put_line d.line s2 in
      let e =
        print_next (sector_line system.sector_size) u s3 wide d.far
          (omega (arith, small.sector_size)) in
      (
        put_line e.line s3,
        >>=-done _ _ address
            (>>=-done _ _ version (>>=-done _ _ b.runs (>>=-done _ _ d.runs e.runs))),
        (a.line, a.shown, (b.line, b.shown, (d.line, d.shown, (e.line, e.shown, refl)))),
      )

-- In a text mode of 80 by 25, with an empty memory map, an entry point in the BIOS area and numbers
-- that fit their words, `entry32` returns, with fuel for the 4000 bytes of the screen and the digits
-- of a number: on the cleared screen it has shown the nine lines of its report.
pub entry32-Reports :
    (system : SysInfo) (s : State) (p : ℕ)
    → (system.vmode.mode ≡ 2) ⊎ (system.vmode.mode ≡ 3)
    → IsSmall system
    → IsFound s.mem p
    → (u : State) × (t : State) × (entry32 4001 12 system s ≡ done t)
      × Cleared s u
      × Reports (report system p (s.mem (p + 6)) (s.mem (p + 7))) u t
unfolding entry32 Reports sum_entries
entry32-Reports system s p mode small found =
    let (t0, u, r1, r2, c) = start_text system.vmode s mode in
    let w : u.screen.width ≡ 80 = ap (λ (d : Display). d.width) c.screen_is in
    let wide : u.screen.width ≢ 0 = λ z. omega (arith, w, z) in
    let home : u.screen.index ≡ 0 = ap (λ (d : Display). d.index) c.screen_is in
    let a = print_next greeting u u wide (Far-refl u (omega (arith, home))) (omega arith) in
    let s1 = put_line a.line u in
    let b = print_next (entries_line 0) u s1 wide a.far (omega arith) in
    let s2 = put_line b.line s1 in
    let entries =
      ap (λ n. printf 12 (codes "SMAP entries: %d\r\n") (n ∷ []) s1) small.no_entries ∙ b.runs in
    let totals = ap (λ n. sum_entries n system.entries no_totals) small.no_entries in
    let d = print_next (no_bytes (codes "Total system memory: ")) u s2 wide b.far (omega arith) in
    let s3 = put_line d.line s2 in
    let e = print_next (no_bytes (codes "Usable system memory: ")) u s3 wide d.far (omega arith) in
    let s4 = put_line e.line s3 in
    let f = print_next (no_bytes (codes "Reclaimable memory: ")) u s4 wide e.far (omega arith) in
    let (t, runs, rest) = show_system-Reports system small s u c p found wide _ f.far in
    (
      u,
      t,
      >>=-done _ _ r1 (
          >>=-done _ _ r2 (
            >>=-done _ _ a.runs (
              >>=-done _ _ entries (
                >>=-done _ _ totals
                  (>>=-done _ _ d.runs (>>=-done _ _ e.runs (>>=-done _ _ f.runs runs))))))),
      c,
      (
        a.line,
        a.shown,
        (b.line, b.shown, (d.line, d.shown, (e.line, e.shown, (f.line, f.shown, rest)))),
      ),
    )
