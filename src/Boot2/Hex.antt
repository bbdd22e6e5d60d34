-- ===== src/Boot2/Hex.antt =====
-- `printx` shows hexadecimal numerals.
use native.Mathlib.Nat.{pow-suc}
use ganos.Base.{
  sym, ℕ, zero, suc, ◌+◌, ◌*◌, ◌/◌, ◌%◌, ◌^◌, ◌<◌, ◌≡◌, ◌≢◌, refl, ◌∙◌, arith, List, [], ◌∷◌, ◌++◌,
  Bool, true, false, map, map-append, All,
}
use ganos.Base.Run.{Run, done, ◌>>=◌}
use ganos.Boot2.{State, putchar, printx, hex_digit}
use ganos.Boot2.Number.{put_str, put_str-append}

abbrev hex_value_from : ℕ → List ℕ → ℕ
hex_value_from acc [] = acc
hex_value_from acc (d ∷ ds) = hex_value_from (acc * 16 + d) ds

abbrev NoLeadingZeroDigit : List ℕ → Type 0
NoLeadingZeroDigit [] = Unit
NoLeadingZeroDigit (d ∷ ds) = d ≢ 0

-- `ds` are the base 16 digits of `n`, the highest first and not zero (none for 0).
pub record IsHex (n : ℕ) (ds : List ℕ) : Type 0 where
  pub digits : All (λ d. d < 16) ds
  pub denotes : hex_value_from 0 ds ≡ n
  pub leading : NoLeadingZeroDigit ds

-- The hexadecimal numeral of `n`: "0" for 0, no leading zeros otherwise.
abbrev pub IsHexNumeral : Bool → ℕ → List ℕ → Type 0
IsHexNumeral upper zero out = out ≡ 48 ∷ []
IsHexNumeral upper (suc n) out = (ds : List ℕ) × IsHex (suc n) ds × (out ≡ map (hex_digit upper) ds)

hex_value_from-snoc :
    (acc d : ℕ) (ds : List ℕ) → hex_value_from acc (ds ++ d ∷ []) ≡ hex_value_from acc ds * 16 + d
hex_value_from-snoc acc d [] = refl
hex_value_from-snoc acc d (e ∷ ds) = hex_value_from-snoc (acc * 16 + e) d ds

All-snoc : (d : ℕ) (ds : List ℕ) → All (λ d. d < 16) ds → d < 16 → All (λ d. d < 16) (ds ++ d ∷ [])
All-snoc d [] a h = (h, tt)
All-snoc d (e ∷ ds) a h = (a.0, All-snoc d ds a.1 h)

NoLeadingZeroDigit-snoc :
    (n : ℕ) (ds : List ℕ)
    → n ≢ 0
    → hex_value_from 0 ds ≡ n / 16
    → NoLeadingZeroDigit ds
    → NoLeadingZeroDigit (ds ++ n % 16 ∷ [])
NoLeadingZeroDigit-snoc n [] ne e h = λ z. ne (omega arith)
NoLeadingZeroDigit-snoc n (d ∷ ds) ne e h = h

IsHex-snoc : (n : ℕ) (ds : List ℕ) → n ≢ 0 → IsHex (n / 16) ds → IsHex n (ds ++ n % 16 ∷ [])
IsHex-snoc n ds ne h = record {
  digits = All-snoc (n % 16) ds h.digits (omega arith);
  denotes = rw hex_value_from-snoc (omega (arith, h.denotes));
  leading = NoLeadingZeroDigit-snoc n ds ne h.denotes h.leading;
}

IsHex-nil : IsHex 0 []
IsHex-nil = record { digits = tt; denotes = refl; leading = tt }

printx-suc :
    (f x colour : ℕ) (recurse upper : Bool) (s : State)
    → printx (suc f) (suc x) colour recurse upper s ≡ (
        printx f (suc x / 16) colour true upper s >>= λ s'.
        done (putchar (hex_digit upper (suc x % 16)) colour s'))
unfolding printx
printx-suc f x colour recurse upper s = ground arith

module _ (colour : ℕ) (upper : Bool) where
  ShowsHex : ℕ → State → Run State → Type 0
  ShowsHex x s r =
      (ds : List ℕ) × IsHex x ds × (r ≡ done (put_str (map (hex_digit upper) ds) colour s))

  printx-high :
      (n x : ℕ) (s : State) → x < 16 ^ n → ShowsHex x s (printx (suc n) x colour true upper s)
  unfolding printx ShowsHex put_str
  printx-high zero x s h = let e : x ≡ 0 = omega arith in rw e ([], IsHex-nil, refl)
  printx-high (suc n) zero s h = ([], IsHex-nil, refl)
  printx-high (suc n) (suc x) s h =
      let (ds, is, e) = printx-high n (suc x / 16) s (omega (arith, pow-suc 16 n)) in
      (
        ds ++ suc x % 16 ∷ [],
        IsHex-snoc (suc x) ds (omega arith) is,
        rw (printx-suc (suc n) x colour true upper s, e, map-append, put_str-append) refl,
      )

  -- With fuel for its digits `printx` returns and shows the hexadecimal numeral of its argument, in
  -- the case that `uppercase` chooses, without leading zeros, and "0" for 0.
  pub printx_lem :
      (n x : ℕ) (s : State)
      → x < 16 ^ n
      → (out : List ℕ) × IsHexNumeral upper x out
        × (printx (suc n) x colour false upper s ≡ done (put_str out colour s))
  unfolding ShowsHex
  printx_lem n zero s h = (48 ∷ [], refl, unfold printx put_str in refl)
  printx_lem n (suc x) s h =
      let (ds, is, e) = printx-high n (suc x) s h in
      (
        map (hex_digit upper) ds,
        (ds, is, refl),
        printx-suc n x colour false upper s ∙ sym (printx-suc n x colour true upper s) ∙ e,
      )
