-- ===== src/Base/Memory.antt =====
-- Byte-addressed memory: every address holds a byte, and a store changes one of them.
-- The casts to the fixed widths.
use Prim.Native.Nat.{ℕ, ◌%◌, ◌^◌}
use ganos.Base.Tests.{◌==◌, if◌then◌else◌}

abbrev pub Mem : Type 0
Mem = ℕ → ℕ

abbrev pub u8 : ℕ → ℕ
u8 n = n % 2 ^ 8

abbrev pub u16 : ℕ → ℕ
u16 n = n % 2 ^ 16

abbrev pub u32 : ℕ → ℕ
u32 n = n % 2 ^ 32

abbrev pub u64 : ℕ → ℕ
u64 n = n % 2 ^ 64

-- `mem[a] = v` for a byte `v`.
abbrev pub store : Mem → ℕ → ℕ → Mem
store m a v k = if k == a then v else m k
