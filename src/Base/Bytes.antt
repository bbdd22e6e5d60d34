-- ===== src/Base/Bytes.antt =====
-- The bytes of a region of memory, and the string that starts at an address.
use Prim.Native.Nat.{ℕ, zero, suc, ◌+◌, ◌/◌, ◌%◌, ◌≤◌, ◌<◌}
use mathlib.Core.Path.{◌≡◌, refl, ap₂, ◌∙◌}
use mathlib.Core.Logic.{◌⊎◌}
use mathlib.Core.List.{List, [], ◌∷◌, ◌++◌}
use native.Mathlib.Nat.{add-zero}
use native.Mathlib.Omega.{arith}
use ganos.Base.Memory.{Mem, store}

-- The `n` bytes from `a` on.
abbrev pub bytes : Mem → ℕ → ℕ → List ℕ
bytes m a zero = []
bytes m a (suc n) = m a ∷ bytes m (a + 1) n

pub bytes-suc : (m : Mem) (n a : ℕ) → bytes m a (suc n) ≡ bytes m a n ++ m (a + n) ∷ []
bytes-suc m zero a = rw add-zero
bytes-suc m (suc n) a =
    ap₂ (λ (x : ℕ) (xs : List ℕ). x ∷ xs) refl
      (bytes-suc m n (a + 1) ∙ (let e : a + 1 + n ≡ a + suc n = omega arith in rw e))

-- Where two memories agree on the region, so do its bytes.
pub bytes_ext :
    (m o : Mem) (n a : ℕ) → ((k : ℕ) → a ≤ k → k < a + n → m k ≡ o k) → bytes m a n ≡ bytes o a n
bytes_ext m o zero a h = refl
bytes_ext m o (suc n) a h =
    ap₂ (λ (x : ℕ) (xs : List ℕ). x ∷ xs) (h a (omega arith) (omega arith))
      (bytes_ext m o n (a + 1) (λ k p q. h k (omega arith) (omega arith)))

pub bytes-store :
    (m : Mem) (n a k v : ℕ) → (k < a) ⊎ (a + n ≤ k) → bytes (store m k v) a n ≡ bytes m a n
bytes-store m n a k v h = bytes_ext (store m k v) m n a (λ j p q. ground arith)

-- The bytes of a number of 16, 32 or 64 bits, least significant first.
abbrev pub le16 : ℕ → List ℕ
le16 n = n % 256 ∷ n / 256 % 256 ∷ []

abbrev pub le32 : ℕ → List ℕ
le32 n = le16 n ++ le16 (n / 65536)

abbrev pub le64 : ℕ → List ℕ
le64 n = le32 n ++ le32 (n / 4294967296)
