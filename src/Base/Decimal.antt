-- ===== src/Base/Decimal.antt =====
-- Decimal numerals as lists of ASCII codes: what they denote, and when they are canonical.
use Prim.Native.Nat.{ℕ, ◌+◌, ◌-◌, ◌*◌, ◌/◌, ◌%◌, ◌≤◌}
use mathlib.Core.Path.{◌≡◌, refl}
use mathlib.Core.Logic.{◌≢◌}
use mathlib.Core.List.{List, [], ◌∷◌, ◌++◌}
use native.Mathlib.Omega.{arith}
use ganos.Base.Lists.{All}

abbrev value_from : ℕ → List ℕ → ℕ
value_from acc [] = acc
value_from acc (c ∷ cs) = value_from (acc * 10 + (c - 48)) cs

-- The number that a numeral denotes.
abbrev pub value : List ℕ → ℕ
value cs = value_from 0 cs

abbrev pub IsDigit : ℕ → Type 0
IsDigit c = (48 ≤ c) × (c ≤ 57)

abbrev pub NoLeadingZero : List ℕ → Type 0
NoLeadingZero [] = Unit
NoLeadingZero (c ∷ cs) = c ≢ 48

-- `cs` is the decimal numeral of `n` without leading zeros (empty for 0).
pub record IsDecimal (n : ℕ) (cs : List ℕ) : Type 0 where
  pub digits : All IsDigit cs
  pub denotes : value cs ≡ n
  pub leading : NoLeadingZero cs

value_from-snoc :
    (acc c : ℕ) (cs : List ℕ) → value_from acc (cs ++ c ∷ []) ≡ value_from acc cs * 10 + (c - 48)
value_from-snoc acc c [] = refl
value_from-snoc acc c (d ∷ cs) = value_from-snoc (acc * 10 + (d - 48)) c cs

All-IsDigit-snoc : (c : ℕ) (cs : List ℕ) → All IsDigit cs → IsDigit c → All IsDigit (cs ++ c ∷ [])
All-IsDigit-snoc c [] h d = (d, tt)
All-IsDigit-snoc c (x ∷ cs) h d = (h.0, All-IsDigit-snoc c cs h.1 d)

NoLeadingZero-snoc :
    (n c : ℕ) (cs : List ℕ)
    → value cs ≡ n / 10
    → n ≢ 0
    → c ≡ 48 + n % 10
    → NoLeadingZero cs
    → NoLeadingZero (cs ++ c ∷ [])
NoLeadingZero-snoc n c [] e ne d h = λ z. ne (omega arith)
NoLeadingZero-snoc n c (x ∷ cs) e ne d h = h

pub IsDecimal-nil : IsDecimal 0 []
IsDecimal-nil = record { digits = tt; denotes = refl; leading = tt }

-- The numeral of `n / 10`, followed by the last digit of `n`, is the numeral of `n`.
pub IsDecimal-snoc :
    (n : ℕ) (cs : List ℕ) → n ≢ 0 → IsDecimal (n / 10) cs → IsDecimal n (cs ++ (48 + n % 10) ∷ [])
IsDecimal-snoc n cs ne h = record {
  digits = All-IsDigit-snoc (48 + n % 10) cs h.digits (omega arith);
  denotes = rw value_from-snoc (omega (arith, h.denotes));
  leading = NoLeadingZero-snoc n (48 + n % 10) cs h.denotes ne refl h.leading;
}
