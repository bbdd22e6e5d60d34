-- ===== src/Boot2/Number.antt =====
-- `putchar` keeps its index in the buffer; `printul`, `printl` and `printx` show numerals.
use native.Mathlib.Nat.{pow-suc}
use ganos.Base.{
  sym, IsDecimal-snoc, ◌-◌, Bool, ◌/◌, zero, IsDecimal-nil, true, false, IsDecimal, ◌∙◌, suc, ℕ,
  ◌+◌, ◌*◌, ◌%◌, ◌^◌, ◌≤◌, ◌<◌, ◌≡◌, refl, arith, List, [], ◌∷◌, ◌⊎◌, ◌++◌,
}
use ganos.Boot2.{undefined, negsuc, pos, ℤ, printl, ◌>>=◌, done, printul, Run, State, putchar}

-- The characters of a text, one `putchar` after the other.
unfoldable pub put_str : List ℕ → ℕ → State → State
put_str [] colour s = s
put_str (c ∷ cs) colour s = put_str cs colour (putchar c colour s)

pub put_str-append :
    (xs ys : List ℕ) (colour : ℕ) (s : State)
    → put_str (xs ++ ys) colour s ≡ put_str ys colour (put_str xs colour s)
unfolding put_str
put_str-append [] ys colour s = refl
put_str-append (c ∷ cs) ys colour s = put_str-append cs ys colour (putchar c colour s)

-- The index stands at a cell of a buffer whose size fits 16 bits.
pub record IsInside (s : State) : Type 0 where
  pub small : s.screen.width * s.screen.height * 2 < 2 ^ 16
  pub even : s.screen.index % 2 ≡ 0
  pub inside : s.screen.index < s.screen.width * s.screen.height * 2

-- `t` has the display of `s` but for the index, and its memory but for the buffer.
pub record WithinBuffer (s t : State) : Type 0 where
  pub buffer : t.screen.buffer ≡ s.screen.buffer
  pub width : t.screen.width ≡ s.screen.width
  pub height : t.screen.height ≡ s.screen.height
  pub outside :
      (k : ℕ)
      → (k < s.screen.buffer) ⊎ (s.screen.buffer + s.screen.width * s.screen.height * 2 ≤ k)
      → t.mem k ≡ s.mem k

pub putchar-WithinBuffer :
    (c colour : ℕ) (s : State)
    → IsInside s
    → IsInside (putchar c colour s) × WithinBuffer s (putchar c colour s)
unfolding putchar
putchar-WithinBuffer c colour s v = (
  record { small = ground arith; even = ground arith; inside = ground arith },
  record {
    buffer = ground arith;
    width = ground arith;
    height = ground arith;
    outside = λ k o. ground arith;
  },
)

WithinBuffer-trans : {s t u : State} → WithinBuffer s t → WithinBuffer t u → WithinBuffer s u
WithinBuffer-trans a b = record {
  buffer = b.buffer ∙ a.buffer;
  width = b.width ∙ a.width;
  height = b.height ∙ a.height;
  outside = λ k o. ground (arith, a.outside k, b.outside k, a.buffer, a.width, a.height);
}

-- Text printed by `putchar` alone, however long, goes round in the buffer: from an index inside it
-- the index stays inside, and no byte outside the buffer changes.
pub put_str-WithinBuffer :
    (cs : List ℕ) (colour : ℕ) (s : State)
    → IsInside s
    → IsInside (put_str cs colour s) × WithinBuffer s (put_str cs colour s)
unfolding put_str
put_str-WithinBuffer [] colour s v =
    (v, record { buffer = refl; width = refl; height = refl; outside = λ k o. refl })
put_str-WithinBuffer (c ∷ cs) colour s v =
    let (v', w) = putchar-WithinBuffer c colour s v in
    let (v'', w') = put_str-WithinBuffer cs colour (putchar c colour s) v' in
    (v'', WithinBuffer-trans w w')

-- The run shows the text `cs` on `s`, and nothing else.
abbrev ShowsText : ℕ → State → Run State → List ℕ → Type 0
ShowsText colour s r cs = r ≡ done (put_str cs colour s)

ShowsText-snoc :
    (colour c : ℕ) (cs : List ℕ) (s : State) (r : Run State)
    → ShowsText colour s r cs
    → ShowsText colour s (r >>= λ s'. done (putchar c colour s')) (cs ++ c ∷ [])
unfolding put_str
ShowsText-snoc colour c cs s r e = rw (e, put_str-append)

-- The decimal numeral of `n`: "0" for 0, no leading zeros otherwise.
abbrev pub IsNumeral : ℕ → List ℕ → Type 0
IsNumeral zero cs = cs ≡ 48 ∷ []
IsNumeral (suc n) cs = IsDecimal (suc n) cs

printul-suc :
    (f t colour : ℕ) (recurse : Bool) (s : State)
    → printul (suc f) (suc t) colour recurse s
      ≡ (printul f (suc t / 10) colour true s >>= λ s'. done (putchar (48 + suc t % 10) colour s'))
unfolding printul
printul-suc f t colour recurse s = ground arith

printul-high :
    (n t colour : ℕ) (s : State)
    → t < 10 ^ n
    → (cs : List ℕ) × IsDecimal t cs × ShowsText colour s (printul (suc n) t colour true s) cs
unfolding printul
printul-high zero t colour s h =
    let e : t ≡ 0 = omega arith in rw e ([], IsDecimal-nil, unfold put_str in refl)
printul-high (suc n) zero colour s h = ([], IsDecimal-nil, unfold put_str in refl)
printul-high (suc n) (suc t) colour s h =
    let (cs, is, e) = printul-high n (suc t / 10) colour s (omega (arith, pow-suc 10 n)) in
    (
      cs ++ (48 + suc t % 10) ∷ [],
      IsDecimal-snoc (suc t) cs (omega arith) is,
      printul-suc (suc n) t colour true s
          ∙ ShowsText-snoc colour (48 + suc t % 10) cs s
              (printul (suc n) (suc t / 10) colour true s) e,
    )

-- With fuel for its digits `printul` returns and shows the decimal numeral of its argument, without
-- leading zeros, and "0" for 0.
pub printul_lem :
    (n t colour : ℕ) (s : State)
    → t < 10 ^ n
    → (cs : List ℕ) × IsNumeral t cs
      × (printul (suc n) t colour false s ≡ done (put_str cs colour s))
printul_lem n zero colour s h = (48 ∷ [], refl, unfold printul put_str in refl)
printul_lem n (suc t) colour s h =
    let (cs, is, e) = printul-high n (suc t) colour s h in
    (cs, is, printul-suc n t colour false s ∙ sym (printul-suc n t colour true s) ∙ e)

printl-suc :
    (f t colour : ℕ) (recurse : Bool) (s : State)
    → printl (suc f) (pos (suc t)) colour recurse s ≡ (
        printl f (pos (suc t / 10)) colour true s >>= λ s'.
        done (putchar (48 + suc t % 10) colour s'))
unfolding printl
printl-suc f t colour recurse s = ground arith

printl-high :
    (n t colour : ℕ) (s : State)
    → t < 10 ^ n
    → (cs : List ℕ) × IsDecimal t cs × ShowsText colour s (printl (suc n) (pos t) colour true s) cs
unfolding printl
printl-high zero t colour s h =
    let e : t ≡ 0 = omega arith in rw e ([], IsDecimal-nil, unfold put_str in refl)
printl-high (suc n) zero colour s h = ([], IsDecimal-nil, unfold put_str in refl)
printl-high (suc n) (suc t) colour s h =
    let (cs, is, e) = printl-high n (suc t / 10) colour s (omega (arith, pow-suc 10 n)) in
    (
      cs ++ (48 + suc t % 10) ∷ [],
      IsDecimal-snoc (suc t) cs (omega arith) is,
      printl-suc (suc n) t colour true s
          ∙ ShowsText-snoc colour (48 + suc t % 10) cs s
              (printl (suc n) (pos (suc t / 10)) colour true s) e,
    )

printl-neg :
    (f n colour : ℕ) (r : Bool) (s : State)
    → n + 1 < 2 ^ 31
    → printl (suc f) (negsuc n) colour r s
      ≡ printl f (pos (n + 1)) colour true (putchar 45 colour s)
unfolding printl
printl-neg f n colour r s h = ground arith

-- The signed numeral: a minus sign before the numeral of the magnitude of a negative number.
abbrev pub IsSignedNumeral : ℤ → List ℕ → Type 0
IsSignedNumeral (pos t) cs = IsNumeral t cs
IsSignedNumeral (negsuc n) cs = (ds : List ℕ) × IsDecimal (n + 1) ds × (cs ≡ 45 ∷ ds)

abbrev pub FitsLong : ℤ → Type 0
FitsLong (pos t) = t < 2 ^ 31
FitsLong (negsuc n) = n + 1 < 2 ^ 31

-- `printl` returns and shows the signed decimal numeral of every `long` but LONG_MIN.
pub printl_lem :
    (t : ℤ) (colour : ℕ) (s : State)
    → FitsLong t
    → (cs : List ℕ) × IsSignedNumeral t cs
      × (printl 12 t colour false s ≡ done (put_str cs colour s))
printl_lem (pos zero) colour s h = (48 ∷ [], refl, unfold printl put_str in refl)
printl_lem (pos (suc t)) colour s h =
    let (cs, is, e) = printl-high 11 (suc t) colour s (omega arith) in
    (cs, is, printl-suc 11 t colour false s ∙ sym (printl-suc 11 t colour true s) ∙ e)
printl_lem (negsuc n) colour s h =
    let (cs, is, e) = printl-high 10 (n + 1) colour (putchar 45 colour s) (omega arith) in
    (45 ∷ cs, (cs, is, refl), printl-neg 11 n colour false s h ∙ e ∙ unfold put_str in refl)

-- At LONG_MIN `printl` negates its argument beyond the range of `long`.
pub printl-min :
    (f colour : ℕ) (r : Bool) (s : State)
    → printl (suc f) (negsuc (2 ^ 31 - 1)) colour r s ≡ undefined
unfolding printl
printl-min f colour r s = refl
