-- ===== src/Base/Strings.antt =====
-- C strings: their comparison, and the string that starts at an address.
use Prim.Native.Nat.{ℕ, zero, suc, ◌+◌}
use mathlib.Core.Path.{◌≡◌, refl}
use mathlib.Core.Bool.{Bool, true, false, ◌&&◌}
use mathlib.Core.List.{List, [], ◌∷◌}
use native.Mathlib.Omega.{arith}
use ganos.Base.Tests.{◌==◌, if◌then◌else◌}
use ganos.Base.Memory.{Mem}

-- `!strcmp(a, b)`.
abbrev pub same : List ℕ → List ℕ → Bool
same [] [] = true
same [] (b ∷ bs) = false
same (a ∷ as') [] = false
same (a ∷ as') (b ∷ bs) = a == b && same as' bs

pub same-eq : (a b : List ℕ) → same a b ≡ true → a ≡ b
same-eq [] [] h = refl
same-eq [] (b ∷ bs) h = cc
same-eq (a ∷ as') [] h = cc
same-eq (a ∷ as') (b ∷ bs) h = ground (arith, same-eq as' bs)

pub same_refl : (a : List ℕ) → same a a ≡ true
same_refl [] = refl
same_refl (a ∷ as') = ground (arith, same_refl as')

-- The bytes from `a` up to a NUL, or `n` of them.
abbrev pub c_string : ℕ → Mem → ℕ → List ℕ
c_string zero m a = []
c_string (suc n) m a = let rest = c_string n m (a + 1) in if m a == 0 then [] else m a ∷ rest
