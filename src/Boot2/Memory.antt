-- ===== src/Boot2/Memory.antt =====
-- `entry32` of boot/i386_fat.old/boot2.c: the memory map that the first stage left, its totals, and
-- the report that is printed.
pub mod Screen
pub mod Report
use ganos.Base.{
  ◌^◌, codes, ℕ, zero, suc, ◌+◌, ◌*◌, ◌≢◌, refl, List, [], ◌∷◌, ◌==◌, ltb, if◌then◌else◌, Mem, u32,
  Option, none, some,
}
use ganos.Base.Run.{Run, done, undefined, ◌>>=◌, >>=-eq-done}
use ganos.Boot2.{State, VideoMode, init_screen, clear_screen}
use ganos.Boot2.Printf.{printf}
use ganos.Boot2.Smbios.{locate_smbios_entry}

-- `struct smap_entry`.
pub record SmapEntry : Type 0 where
  pub base_l : ℕ
  pub base_h : ℕ
  pub length_l : ℕ
  pub length_h : ℕ
  pub type : ℕ
  pub acpi : ℕ

-- `struct sys_info`: the entries are the first `count` of the sixteen slots.
pub record SysInfo : Type 0 where
  pub vmode : VideoMode
  pub count : ℕ
  pub entries : List SmapEntry
  pub drive_number : ℕ
  pub sector_size : ℕ

-- `a << k` for a `uint32_t`: a shift by the width or more is undefined.
abbrev shl32 : ℕ → ℕ → Run ℕ
shl32 a k = if ltb k 32 then done (u32 (a * 2 ^ k)) else undefined

-- `REBUILD64_2_32(a, b)`, `((a << 32) + b)` on two `uint32_t`.
rebuild64 : ℕ → ℕ → Run ℕ
rebuild64 a b = shl32 a 32 >>= λ high. done (u32 (high + b))

pub record Totals : Type 0 where
  pub available_mem : ℕ
  pub mem_size : ℕ
  pub reclaimable_mem : ℕ

add_entry : SmapEntry → Totals → Run Totals
unfolding rebuild64
add_entry e t = rebuild64 e.length_h e.length_l >>= λ n.
    let t' : Totals = record t { mem_size = u32 (t.mem_size + n) } in
    if e.type == 1
    then (rebuild64 e.length_h e.length_l >>= λ m.
        done (record t' { available_mem = u32 (t.available_mem + m) }))
    else if e.type == 3
    then (rebuild64 e.length_h e.length_l >>= λ m.
        done (record t' { reclaimable_mem = u32 (t.reclaimable_mem + m) }))
    else done t'

-- The loop over `system.memory.entries`, of which `n` are left: past the sixteenth the array ends.
sum_entries : ℕ → List SmapEntry → Totals → Run Totals
unfolding add_entry
sum_entries zero es t = done t
sum_entries (suc n) [] t = undefined
sum_entries (suc n) (e ∷ es) t = add_entry e t >>= sum_entries n es

-- The version bytes are read through the pointer that the search returned, even if it is NULL.
version_of : Mem → Option ℕ → Run (ℕ × ℕ)
version_of m none = undefined
version_of m (some p) = done (m (p + 6), m (p + 7))

address_of : Option ℕ → ℕ
address_of none = 0
address_of (some p) = p

abbrev no_totals : Totals
no_totals = record { available_mem = 0; mem_size = 0; reclaimable_mem = 0 }

-- `entry32` from the search of the entry point on.
show_system : ℕ → SysInfo → State → Run State
unfolding version_of address_of
show_system fuel system s0 = do
  let entry : Option ℕ = locate_smbios_entry s0.mem
  s1 ← printf fuel (codes "smbios is at address 0x%p\r\n") (address_of entry ∷ []) s0
  (major, minor) ← version_of s1.mem entry
  s2 ← printf fuel (codes "smbios version is %d.%d\r\n") (major ∷ minor ∷ []) s1
  s3 ← printf fuel (codes "Drive number is %Xh\r\n") (system.drive_number ∷ []) s2
  printf fuel (codes "Bytes per sector is %u\r\n") (system.sector_size ∷ []) s3

-- `entry32`, up to the `halt` that ends it: fuel for the rounds that clear the screen and for the
-- digits of a number.
pub entry32 : ℕ → ℕ → SysInfo → State → Run State
unfolding show_system
entry32 rounds fuel system s0 = do
  s1 ← init_screen rounds system.vmode s0
  s2 ← clear_screen rounds s1
  s3 ← printf fuel (codes "Entered protected mode.\r\n") [] s2
  s4 ← printf fuel (codes "SMAP entries: %d\r\n") (system.count ∷ []) s3
  t ← sum_entries system.count system.entries no_totals
  s5 ← printf fuel (codes "Total system memory: %u bytes\r\n") (t.mem_size ∷ []) s4
  s6 ← printf fuel (codes "Usable system memory: %u bytes\r\n") (t.available_mem ∷ []) s5
  s7 ← printf fuel (codes "Reclaimable memory: %u bytes\r\n") (t.reclaimable_mem ∷ []) s6
  show_system fuel system s7

sum_entries-ne-done :
    (n : ℕ) (es : List SmapEntry) (t u : Totals) → n ≢ 0 → sum_entries n es t ≢ done u
unfolding sum_entries
sum_entries-ne-done zero es t u ne e = ne refl
sum_entries-ne-done (suc n) [] t u ne e = cc
sum_entries-ne-done (suc n) (x ∷ es) t u ne e = cc

-- A map with an entry makes the totals shift a 32-bit number by 32: `entry32` has no defined run
-- that gets past them, whatever the screen, the entries and the fuel.
pub entry32-undefined :
    (rounds fuel : ℕ) (system : SysInfo) (s t : State)
    → system.count ≢ 0
    → entry32 rounds fuel system s ≢ done t
unfolding entry32
entry32-undefined rounds fuel system s t ne e =
    let (s1, _, e1) = >>=-eq-done (init_screen rounds system.vmode s) _ e in
    let (s2, _, e2) = >>=-eq-done (clear_screen rounds s1) _ e1 in
    let (s3, _, e3) = >>=-eq-done (printf fuel (codes "Entered protected mode.\r\n") [] s2) _ e2 in
    let (s4, _, e4) =
      >>=-eq-done (printf fuel (codes "SMAP entries: %d\r\n") (system.count ∷ []) s3) _ e3 in
    let (totals, e5, _) = >>=-eq-done (sum_entries system.count system.entries no_totals) _ e4 in
    sum_entries-ne-done system.count system.entries no_totals totals ne e5
