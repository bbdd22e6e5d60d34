-- ===== src/Boot2/Smbios.antt =====
-- `locate_smbios_entry` of boot/i386_fat.old/boot2.c and `struct smbios2_entry_point` of smbios.h:
-- the search of the BIOS area for the entry point of the SMBIOS tables.
use ganos.Base.{
  ℕ, zero, suc, ◌+◌, ◌*◌, ◌%◌, ◌<◌, ◌≤◌, ◌≡◌, refl, ap, ◌∙◌, arith, Bool, true, false, ◌&&◌, ◌==◌,
  if◌then◌else◌, Mem, u8, Option, none, some, Bool-cases, inl, inr,
}

-- The bytes 0x5F 'S' 'M' 0x5F.
abbrev pub has_anchor : Mem → ℕ → Bool
has_anchor m a = (m a == b'_') && (m (a + 1) == b'S') && (m (a + 2) == b'M') && (m (a + 3) == b'_')

-- `checksum += mem[i]` for the first `n` bytes from `a` on, in a `uint8_t`.
checksum_from : Mem → ℕ → ℕ → ℕ → ℕ
checksum_from m a zero acc = acc
checksum_from m a (suc n) acc = checksum_from m (a + 1) n (u8 (acc + m a))

-- `mem[5]` is the length of the entry point, `entry->length`.
unfoldable pub checksum : Mem → ℕ → ℕ
unfolding checksum_from
checksum m a = checksum_from m a (m (a + 5)) 0

abbrev pub is_entry : Mem → ℕ → Bool
is_entry m a = has_anchor m a && (checksum m a == 0)

-- The `while` loop: `n` paragraphs of 16 bytes are left before 0x100000. `none` is NULL.
search_from : Mem → ℕ → ℕ → Option ℕ
search_from m zero a = none
search_from m (suc n) a =
    let rest = search_from m n (a + 16) in
    if has_anchor m a then (if checksum m a == 0 then some a else rest) else rest

unfoldable pub locate_smbios_entry : Mem → Option ℕ
unfolding search_from
locate_smbios_entry m = search_from m 4096 0xF0000

-- The sum of `n` bytes, without wrapping.
abbrev pub byte_sum : Mem → ℕ → ℕ → ℕ
byte_sum m a zero = 0
byte_sum m a (suc n) = m a + byte_sum m (a + 1) n

checksum_from-byte_sum :
    (m : Mem) (n a acc : ℕ) → acc < 256 → checksum_from m a n acc ≡ (acc + byte_sum m a n) % 256
unfolding checksum_from
checksum_from-byte_sum m zero a acc h = omega arith
checksum_from-byte_sum m (suc n) a acc h =
    omega (arith, checksum_from-byte_sum m n (a + 1) (u8 (acc + m a)) (omega arith))

-- The wrapping checksum is the sum of the bytes of the entry point modulo 256.
pub checksum_lem : (m : Mem) (a : ℕ) → checksum m a ≡ byte_sum m a (m (a + 5)) % 256
unfolding checksum
checksum_lem m a = omega (arith, checksum_from-byte_sum m (m (a + 5)) a 0 (omega arith))

-- `r` is the address of the first of `n` paragraphs from `a` on that holds an entry point, or
-- `none`, if none of them does.
abbrev pub IsFirst : Mem → ℕ → ℕ → Option ℕ → Type 0
IsFirst m n a (some p) =
    (i : ℕ) × (p ≡ a + 16 * i)
    × (i < n)
    × (is_entry m p ≡ true)
    × ((j : ℕ) → j < i → is_entry m (a + 16 * j) ≡ false)
IsFirst m n a none = (j : ℕ) → j < n → is_entry m (a + 16 * j) ≡ false

search_from-hit : (m : Mem) (n a : ℕ) → is_entry m a ≡ true → search_from m (suc n) a ≡ some a
unfolding search_from
search_from-hit m n a h = ground arith

search_from-miss :
    (m : Mem) (n a : ℕ) → is_entry m a ≡ false → search_from m (suc n) a ≡ search_from m n (a + 16)
unfolding search_from
search_from-miss m n a h = ground arith

entry_at-zero : (m : Mem) (a : ℕ) (b : Bool) → is_entry m a ≡ b → is_entry m (a + 16 * 0) ≡ b
entry_at-zero m a b h = let e : a + 16 * 0 ≡ a = omega arith in rw e h

entry_at-suc :
    (m : Mem) (a j : ℕ) (b : Bool)
    → is_entry m (a + 16 + 16 * j) ≡ b
    → is_entry m (a + 16 * suc j) ≡ b
entry_at-suc m a j b h = let e : a + 16 * suc j ≡ a + 16 + 16 * j = omega arith in rw e h

-- None of the paragraphs before the `n`th is an entry point.
abbrev NoneBefore : Mem → ℕ → ℕ → Type 0
NoneBefore m n a = (j : ℕ) → j < n → is_entry m (a + 16 * j) ≡ false

NoneBefore-suc :
    (m : Mem) (n a : ℕ) → is_entry m a ≡ false → NoneBefore m n (a + 16) → NoneBefore m (suc n) a
NoneBefore-suc m n a h f zero l = entry_at-zero m a false h
NoneBefore-suc m n a h f (suc j) l = entry_at-suc m a j false (f j (omega arith))

IsFirst-miss :
    (m : Mem) (n a : ℕ) (r : Option ℕ)
    → is_entry m a ≡ false
    → IsFirst m n (a + 16) r
    → IsFirst m (suc n) a r
IsFirst-miss m n a none h f = NoneBefore-suc m n a h f
IsFirst-miss m n a (some p) h (i, e, l, hit, before) =
    (suc i, omega arith, omega arith, hit, NoneBefore-suc m i a h before)

search_from-IsFirst : (m : Mem) (n a : ℕ) → IsFirst m n a (search_from m n a)
search_from-IsFirst m zero a = unfold search_from in λ j l. absurd (omega arith)
search_from-IsFirst m (suc n) a = elim (Bool-cases (is_entry m a)) [
  | inl hit ↦
      rw (search_from-hit m n a hit) (0, omega arith, omega arith, hit, λ j l. absurd (omega arith))
  | inr miss ↦
      rw (search_from-miss m n a miss)
        (IsFirst-miss m n a _ miss (search_from-IsFirst m n (a + 16)))
]

-- The search reads nothing below 0xF0000.
module _ (m o : Mem) (same : (k : ℕ) → 0xF0000 ≤ k → m k ≡ o k) where
  checksum_from_ext :
      (n a acc : ℕ) → 0xF0000 ≤ a → checksum_from m a n acc ≡ checksum_from o a n acc
  unfolding checksum_from
  checksum_from_ext zero a acc h = refl
  checksum_from_ext (suc n) a acc h =
      let e : u8 (acc + m a) ≡ u8 (acc + o a) = omega (arith, same a h) in
      checksum_from_ext n (a + 1) (u8 (acc + m a)) (omega arith) ∙ ap (checksum_from o (a + 1) n) e

  checksum_ext : (a : ℕ) → 0xF0000 ≤ a → checksum m a ≡ checksum o a
  unfolding checksum
  checksum_ext a h =
      checksum_from_ext (m (a + 5)) a 0 h
      ∙ ap (λ n. checksum_from o a n 0) (same (a + 5) (omega arith))

  has_anchor_ext : (a : ℕ) → 0xF0000 ≤ a → has_anchor m a ≡ has_anchor o a
  has_anchor_ext a h =
      rw
        (
          same a h,
          same (a + 1) (omega arith),
          same (a + 2) (omega arith),
          same (a + 3) (omega arith),
        )
        refl

  search_from_ext : (n a : ℕ) → 0xF0000 ≤ a → search_from m n a ≡ search_from o n a
  unfolding search_from
  search_from_ext zero a h = refl
  search_from_ext (suc n) a h =
      rw (has_anchor_ext a h, checksum_ext a h, search_from_ext n (a + 16) (omega arith)) refl

  pub locate_smbios_entry_ext : locate_smbios_entry m ≡ locate_smbios_entry o
  unfolding locate_smbios_entry
  locate_smbios_entry_ext = search_from_ext 4096 0xF0000 (omega arith)

-- The search returns the first paragraph of 0xF0000 to 0xFFFFF with the anchor and a checksum of
-- zero, and NULL exactly if there is none.
pub locate_smbios_entry-IsFirst : (m : Mem) → IsFirst m 4096 0xF0000 (locate_smbios_entry m)
unfolding locate_smbios_entry
locate_smbios_entry-IsFirst m = search_from-IsFirst m 4096 0xF0000
