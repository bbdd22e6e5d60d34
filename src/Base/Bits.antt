-- ===== src/Base/Bits.antt =====
-- `&` and `|` on numbers cut into fields: both work field by field.
use ganos.Base.Tests.{◌==◌, Bool-cases}
use mathlib.Core.Path.{◌≡◌, refl, sym, ◌∙◌, ap, ap₂}
use mathlib.Core.Logic.{inl, inr}
use native.Mathlib.Nat.{pow-suc, one-le-pow}
use native.Mathlib.Omega.{arith}
use Prim.Native.Nat.{
  bit_and, bit_or, bit_and-bitwise, bit_or-bitwise, bitwise, digits, max, min, ℕ, zero, suc, ◌≤◌,
  ◌<◌, ◌+◌, ◌-◌, ◌*◌, ◌/◌, ◌%◌, ◌^◌,
}

-- An operation whose lowest digit is `f` of the lowest digits.
Digitwise : (op f : ℕ → ℕ → ℕ) → Type 0
Digitwise op f = (x y : ℕ) → f (x % 2) (y % 2) + 2 * op (x / 2) (y / 2) ≡ op x y

-- The operations are a recursion on binary digits, with fuel that is dropped here.
module _ (rest : ℕ → ℕ) (f : ℕ → ℕ → ℕ) where
  more_fuel : (fuel y x : ℕ) → x ≤ fuel → digits rest f fuel x y ≡ digits rest f (suc fuel) x y
  more_fuel (suc fuel) y (suc x) h =
      ap (λ (high : ℕ). high * 2 + f (suc x % 2) (y % 2))
        (more_fuel fuel (y / 2) (suc x / 2) (omega arith))
  more_fuel (suc fuel) y zero h = refl
  more_fuel zero y (suc x) h = absurd (omega arith)
  more_fuel zero y zero h = refl

  enough_fuel : (fuel y x : ℕ) → x ≤ fuel → bitwise rest f x y ≡ digits rest f fuel x y
  enough_fuel zero y x h = let e : x ≡ 0 = omega (arith, h) in rw e refl
  enough_fuel (suc fuel) y x h = elim (Bool-cases (x == suc fuel)) [
    | inl full ↦ let e : x ≡ suc fuel = ground (arith, full) in rw e refl
    | inr less ↦
        enough_fuel fuel y x (ground (arith, less)) ∙ more_fuel fuel y x (ground (arith, less))
  ]

  lowest_digit :
      (y x : ℕ)
      → f (suc x % 2) (y % 2) + 2 * bitwise rest f (suc x / 2) (y / 2) ≡ bitwise rest f (suc x) y
  lowest_digit y x = omega (arith, enough_fuel x (y / 2) (suc x / 2) (omega arith))

pub zero-bit_and : (y : ℕ) → bit_and 0 y ≡ 0
zero-bit_and y = bit_and-bitwise 0 y

pub zero-bit_or : (y : ℕ) → bit_or 0 y ≡ y
zero-bit_or y = bit_or-bitwise 0 y

bit_and-Digitwise : Digitwise bit_and min
unfolding Digitwise
bit_and-Digitwise (suc x) y =
    ap (λ high. min (suc x % 2) (y % 2) + 2 * high) (bit_and-bitwise (suc x / 2) (y / 2))
    ∙ lowest_digit (λ _. zero) min y x
    ∙ sym (bit_and-bitwise (suc x) y)
bit_and-Digitwise zero y = omega (arith, zero-bit_and (y / 2), zero-bit_and y)

-- The lowest binary digit of both sides.
pub bit_and-digit : (x y : ℕ) → min (x % 2) (y % 2) + 2 * bit_and (x / 2) (y / 2) ≡ bit_and x y
unfolding Digitwise
bit_and-digit = bit_and-Digitwise

bit_or-Digitwise : Digitwise bit_or max
unfolding Digitwise
bit_or-Digitwise (suc x) y =
    ap (λ high. max (suc x % 2) (y % 2) + 2 * high) (bit_or-bitwise (suc x / 2) (y / 2))
    ∙ lowest_digit (λ low. low) max y x
    ∙ sym (bit_or-bitwise (suc x) y)
bit_or-Digitwise zero y = omega (arith, zero-bit_or (y / 2), zero-bit_or y)

scaled-suc : (q k : ℕ) → q * 2 ^ suc k ≡ q * 2 ^ k * 2
scaled-suc q k = omega (arith, ap (λ (t : ℕ). q * t) (pow-suc 2 k))

module _ (op f : ℕ → ℕ → ℕ) (digitwise : Digitwise op f) (nothing : op 0 0 ≡ 0) where
  -- It works on the part above bit `k` and the part below it.
  op-split :
      (k q r q' r' : ℕ)
      → r < 2 ^ k
      → r' < 2 ^ k
      → op (q * 2 ^ k + r) (q' * 2 ^ k + r') ≡ op q q' * 2 ^ k + op r r'
  unfolding Digitwise
  op-split zero q r q' r' h h' =
      let e : r ≡ 0 = omega (arith, h) in
      let e' : r' ≡ 0 = omega (arith, h') in
      let p : q * 2 ^ 0 + r ≡ q = omega (arith, h) in
      let p' : q' * 2 ^ 0 + r' ≡ q' = omega (arith, h') in
      let low : op r r' ≡ 0 = ap₂ op e e' ∙ nothing in ap₂ op p p' ∙ omega (arith, low)
  op-split (suc k) q r q' r' h h' =
      let a = q * 2 ^ suc k + r in
      let b = q' * 2 ^ suc k + r' in
      let p = scaled-suc q k in
      let p' = scaled-suc q' k in
      let high : op (a / 2) (b / 2) ≡ op q q' * 2 ^ k + op (r / 2) (r' / 2) =
        ap₂ op (omega (arith, p)) (omega (arith, p'))
        ∙ op-split k q (r / 2) q' (r' / 2) (omega (arith, pow-suc 2 k))
            (omega (arith, pow-suc 2 k)) in
      let low : f (a % 2) (b % 2) ≡ f (r % 2) (r' % 2) =
        ap₂ f (omega (arith, p)) (omega (arith, p')) in
      let t = scaled-suc (op q q') k in omega (arith, digitwise a b, high, low, digitwise r r', t)

  -- A zero on the right gives `g`, when `g` goes digit by digit too.
  module _ (g : ℕ → ℕ) (at_zero : g 0 ≡ 0)
      (step : (x : ℕ) → f (x % 2) 0 + 2 * g (x / 2) ≡ g x) where
    zero_upto : (bound x : ℕ) → x ≤ bound → op x 0 ≡ g x
    unfolding Digitwise
    zero_upto (suc bound) x h =
        let high : op (x / 2) 0 ≡ g (x / 2) = zero_upto bound (x / 2) (omega (arith, h)) in
        omega (arith, digitwise x 0, high, step x)
    zero_upto zero x h = let e : x ≡ 0 = omega (arith, h) in rw e (nothing ∙ sym at_zero)

pub bit_and-split :
    (k q r q' r' : ℕ)
    → r < 2 ^ k
    → r' < 2 ^ k
    → bit_and (q * 2 ^ k + r) (q' * 2 ^ k + r') ≡ bit_and q q' * 2 ^ k + bit_and r r'
bit_and-split = op-split bit_and min bit_and-Digitwise refl

pub bit_or-split :
    (k q r q' r' : ℕ)
    → r < 2 ^ k
    → r' < 2 ^ k
    → bit_or (q * 2 ^ k + r) (q' * 2 ^ k + r') ≡ bit_or q q' * 2 ^ k + bit_or r r'
bit_or-split = op-split bit_or max bit_or-Digitwise refl

pub bit_and-zero : (x : ℕ) → bit_and x 0 ≡ 0
bit_and-zero x =
    zero_upto bit_and min bit_and-Digitwise refl (λ _. 0) refl (λ y. omega arith) x x (omega arith)

pub bit_or-zero : (x : ℕ) → bit_or x 0 ≡ x
bit_or-zero x =
    zero_upto bit_or max bit_or-Digitwise refl (λ y. y) refl (λ y. omega arith) x x (omega arith)

-- A mask of ones keeps what is below it.
pub bit_and-ones : (k a : ℕ) → a < 2 ^ k → bit_and a (2 ^ k - 1) ≡ a
unfolding Digitwise
bit_and-ones zero a h = let e : a ≡ 0 = omega (arith, h) in rw e refl
bit_and-ones (suc k) a h =
    let half : (2 ^ suc k - 1) / 2 ≡ 2 ^ k - 1 = omega (arith, pow-suc 2 k) in
    let high : bit_and (a / 2) ((2 ^ suc k - 1) / 2) ≡ a / 2 =
      ap (bit_and (a / 2)) half ∙ bit_and-ones k (a / 2) (omega (arith, pow-suc 2 k)) in
    omega (arith, bit_and-Digitwise a (2 ^ suc k - 1), high, pow-suc 2 k, one-le-pow k 2)
