-- ===== src/Console/Number.antt =====
-- `print_u64` and `print_i64` against decimal numerals.
use native.Mathlib.Nat.{pow-suc}
use ganos.Base.{
  ℕ, zero, suc, ◌+◌, ◌-◌, ◌/◌, ◌%◌, ◌^◌, ◌<◌, ◌≡◌, ◌≢◌, refl, ◌∙◌, arith, List, [], ◌∷◌, ◌++◌, ◌==◌,
  inl, inr, Bool-cases, ==_iff, IsDecimal, IsDecimal-nil, IsDecimal-snoc,
}
use ganos.Base.Run.{Run, done, undefined, ◌>>=◌}
use ganos.Base.Int.{ℤ, pos, negsuc}
use ganos.Console.{Screen, print_char, print_str, print_u64, print_i64}
use ganos.Console.Text.{print_str-append}

-- The run shows the decimal numeral of `d` on `s`, and nothing else.
abbrev Shows : ℕ → Screen → Run Screen → Type 0
Shows d s r = (cs : List ℕ) × IsDecimal d cs × (r ≡ done (print_str cs s))

Shows-snoc :
    (d : ℕ) (s : Screen) (r : Run Screen)
    → d ≢ 0
    → Shows (d / 10) s r
    → Shows d s (r >>= λ s'. done (print_char (48 + d % 10) s'))
unfolding print_str
Shows-snoc d s r ne (cs, is, e) =
    (cs ++ (48 + d % 10) ∷ [], IsDecimal-snoc d cs ne is, rw (e, print_str-append))

Shows-zero : (d : ℕ) (s : Screen) → d ≡ 0 → Shows d s (done s)
unfolding print_str
Shows-zero d s e = rw e ([], IsDecimal-nil, refl)

-- With fuel for its digits, `print_u64` returns, and shows the decimal numeral of its argument
-- without leading zeros. For 0 that numeral is empty: nothing is shown.
pub print_u64_lem :
    (n d : ℕ) (s : Screen)
    → d < 10 ^ n
    → (cs : List ℕ) × IsDecimal d cs × (print_u64 (suc n) d s ≡ done (print_str cs s))
unfolding print_u64
print_u64_lem zero d s h =
    let e : d ≡ 0 = omega arith in rw e ([], IsDecimal-nil, unfold print_str in refl)
print_u64_lem (suc n) d s h = elim (Bool-cases (d == 0)) [
  | inl z ↦ rw z (Shows-zero d s ((==_iff d 0).0 z))
  | inr nz ↦ rw nz (
      Shows-snoc d s (print_u64 (suc n) (d / 10) s) (ground arith)
        (print_u64_lem n (d / 10) s (omega (arith, pow-suc 10 n))))
]

print_i64-pos : (n d : ℕ) (s : Screen) → d < 10 ^ n → Shows d s (print_i64 (suc n) (pos d) s)
unfolding print_i64
print_i64-pos zero d s h =
    let e : d ≡ 0 = omega arith in rw e ([], IsDecimal-nil, unfold print_str in refl)
print_i64-pos (suc n) d s h = elim (Bool-cases (d == 0)) [
  | inl z ↦ rw z (Shows-zero d s ((==_iff d 0).0 z))
  | inr nz ↦ rw nz (
      Shows-snoc d s (print_i64 (suc n) (pos (d / 10)) s) (ground arith)
        (print_i64-pos n (d / 10) s (omega (arith, pow-suc 10 n))))
]

-- What `print_i64` shall show: the numeral of the magnitude, behind a minus sign if negative.
abbrev pub IsSigned : ℤ → List ℕ → Type 0
IsSigned (pos d) cs = IsDecimal d cs
IsSigned (negsuc n) cs = (ds : List ℕ) × IsDecimal (n + 1) ds × (cs ≡ 45 ∷ ds)

abbrev pub magnitude : ℤ → ℕ
magnitude (pos d) = d
magnitude (negsuc n) = n + 1

print_i64-neg :
    (f n : ℕ) (s : Screen)
    → n + 1 < 2 ^ 63
    → print_i64 (suc f) (negsuc n) s ≡ print_i64 f (pos (n + 1)) (print_char 45 s)
unfolding print_i64
print_i64-neg f n s h = ground arith

-- For every value but INT64_MIN, `print_i64` returns and shows the signed decimal numeral.
pub print_i64_lem :
    (d : ℤ) (s : Screen)
    → magnitude d < 2 ^ 63
    → (cs : List ℕ) × IsSigned d cs × (print_i64 21 d s ≡ done (print_str cs s))
print_i64_lem (pos d) s h = print_i64-pos 20 d s (omega arith)
print_i64_lem (negsuc n) s h =
    let (cs, is, e) = print_i64-pos 19 (n + 1) (print_char 45 s) (omega arith) in
    (45 ∷ cs, (cs, is, refl), print_i64-neg 20 n s h ∙ e ∙ unfold print_str in refl)

-- At INT64_MIN `print_i64` negates its argument beyond the range of `int64_t`, whatever the fuel.
pub print_i64-min : (f : ℕ) (s : Screen) → print_i64 (suc f) (negsuc (2 ^ 63 - 1)) s ≡ undefined
unfolding print_i64
print_i64-min f s = refl

-- Both functions of the macro return and show the numeral of their argument, without leading zeros
-- and empty for 0: `print_u64` for every 64-bit number, `print_i64`, with its sign, for every 64-bit
-- integer but the least one.
pub print_dec_num :
    (u : ℕ) (d : ℤ) (s : Screen)
    → u < 2 ^ 64
    → magnitude d < 2 ^ 63
    → ((cs : List ℕ) × IsDecimal u cs × (print_u64 21 u s ≡ done (print_str cs s)))
      × ((cs : List ℕ) × IsSigned d cs × (print_i64 21 d s ≡ done (print_str cs s)))
print_dec_num u d s small fits = (print_u64_lem 20 u s (omega arith), print_i64_lem d s fits)
