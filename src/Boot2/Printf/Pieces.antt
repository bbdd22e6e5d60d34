-- ===== src/Boot2/Printf/Pieces.antt =====
-- `printf` on formats made of plain text and of the conversions `%u`, `%d`, `%X`, `%p` and `%c`.
use ganos.Base.{
  inr, ltb→lt, inl, ltb, Bool-cases, ℕ, ◌<◌, ◌^◌, ◌≡◌, ◌≢◌, refl, sym, ap, ◌∙◌, arith, List, [],
  ◌∷◌, ◌++◌, All, true, false, append_assoc, append-nil, ◌⊎◌,
}
use ganos.Base.Run.{Run, done, undefined, out_of_fuel, ◌>>=◌}
use ganos.Boot2.{State, putchar}
use ganos.Boot2.Number.{
  put_str, put_str-append, IsNumeral, IsSignedNumeral, FitsLong, printul_lem, printl_lem,
}
use ganos.Boot2.Hex.{IsHexNumeral, printx_lem}
use ganos.Boot2.Printf.{Cursor, colour, signed32, convert, step, printf_loop, printf}

pub data Piece : Type 0 where
  text : List ℕ → Piece
  unsigned signed hex pointer char : ℕ → Piece

-- The part of the format string, and of the argument list, that a piece stands for.
abbrev pub format : List Piece → List ℕ
format [] = []
format (text cs ∷ ps) = cs ++ format ps
format (unsigned a ∷ ps) = 37 ∷ 117 ∷ format ps
format (signed a ∷ ps) = 37 ∷ 100 ∷ format ps
format (hex a ∷ ps) = 37 ∷ 88 ∷ format ps
format (pointer a ∷ ps) = 37 ∷ 112 ∷ format ps
format (char a ∷ ps) = 37 ∷ 99 ∷ format ps

abbrev pub arguments : List Piece → List ℕ
arguments [] = []
arguments (text cs ∷ ps) = arguments ps
arguments (unsigned a ∷ ps) = a ∷ arguments ps
arguments (signed a ∷ ps) = a ∷ arguments ps
arguments (hex a ∷ ps) = a ∷ arguments ps
arguments (pointer a ∷ ps) = a ∷ arguments ps
arguments (char a ∷ ps) = a ∷ arguments ps

-- A character that `printf` copies: no carriage return, line feed, tab or percent sign.
abbrev pub IsPlain : ℕ → Type 0
IsPlain c = (c ≢ 13) × (c ≢ 10) × (c ≢ 9) × (c ≢ 37)

-- The pieces that are shown whole: a `long` is not LONG_MIN.
abbrev pub IsShowable : Piece → Type 0
IsShowable (text cs) = All IsPlain cs
IsShowable (unsigned a) = a < 2 ^ 32
IsShowable (signed a) = (a < 2 ^ 32) × (a ≢ 2 ^ 31)
IsShowable (hex a) = a < 2 ^ 32
IsShowable (pointer a) = a < 2 ^ 32
IsShowable (char a) = Unit

-- The text that a piece is shown as.
abbrev pub ShownAs : Piece → List ℕ → Type 0
ShownAs (text cs) out = out ≡ cs
ShownAs (unsigned a) out = IsNumeral a out
ShownAs (signed a) out = IsSignedNumeral (signed32 a) out
ShownAs (hex a) out = IsHexNumeral true a out
ShownAs (pointer a) out = IsHexNumeral true a out
ShownAs (char a) out = out ≡ a ∷ []

abbrev pub AllShownAs : List Piece → List ℕ → Type 0
AllShownAs [] out = out ≡ []
AllShownAs (p ∷ ps) out =
    (now : List ℕ) × (later : List ℕ) × ShownAs p now × AllShownAs ps later × (out ≡ now ++ later)

abbrev at : List ℕ → State → Cursor
at args s = record { fmt_specifier = false; args = args; state = s }

step-plain :
    (n c : ℕ) (args : List ℕ) (s : State)
    → IsPlain c
    → step n c (at args s) ≡ done (at args (putchar c colour s))
unfolding step
step-plain n c args s h = ground arith

step-convert :
    (n c : ℕ) (args : List ℕ) (s : State)
    → IsPlain c
    → (step n 37 (at args s) >>= step n c)
      ≡ (convert n c args s >>= λ (rest, s'). done (at rest s'))
unfolding step
step-convert n c args s h = ground arith

printf_loop-plain :
    (n : ℕ) (cs fmt args : List ℕ) (s : State)
    → All IsPlain cs
    → printf_loop n (cs ++ fmt) (at args s) ≡ printf_loop n fmt (at args (put_str cs colour s))
unfolding printf_loop put_str
printf_loop-plain n [] fmt args s h = refl
printf_loop-plain n (c ∷ cs) fmt args s h =
    rw (step-plain n c args s h.0) (printf_loop-plain n cs fmt args (putchar c colour s) h.1)

>>=_assoc {ℓ κ μ} :
    {A : Type ℓ} {B : Type κ} {C : Type μ} (m : Run A) (f : A → Run B) (g : B → Run C)
    → (m >>= f >>= g) ≡ (m >>= λ a. f a >>= g)
>>=_assoc (done a) f g = refl
>>=_assoc undefined f g = refl
>>=_assoc out_of_fuel f g = refl

printf_loop-convert :
    (n c : ℕ) (fmt args : List ℕ) (s : State)
    → IsPlain c
    → printf_loop n (37 ∷ c ∷ fmt) (at args s)
      ≡ (convert n c args s >>= λ (rest, s'). printf_loop n fmt (at rest s'))
unfolding printf_loop
printf_loop-convert n c fmt args s h =
    sym (>>=_assoc (step n 37 (at args s)) (step n c) (printf_loop n fmt))
    ∙ ap (λ m. m >>= printf_loop n fmt) (step-convert n c args s h)
    ∙ >>=_assoc (convert n c args s) (λ (rest, s'). done (at rest s')) (printf_loop n fmt)

-- What a conversion does with the argument at the head of the list.
abbrev Converts : ℕ → ℕ → List ℕ → State → (List ℕ → Type 0) → Type 0
Converts c a args s Shown =
    (out : List ℕ) × Shown out × (convert 12 c (a ∷ args) s ≡ done (args, put_str out colour s))

convert-unsigned :
    (a : ℕ) (args : List ℕ) (s : State) → a < 2 ^ 32 → Converts 117 a args s (IsNumeral a)
unfolding convert
convert-unsigned a args s h =
    let (out, is, e) = printul_lem 11 a colour s (omega arith) in (out, is, rw e)

signed32-FitsLong : (a : ℕ) → a < 2 ^ 32 → a ≢ 2 ^ 31 → FitsLong (signed32 a)
signed32-FitsLong a h ne = elim (Bool-cases (ltb a (2 ^ 31))) [
  | inl e ↦ rw e (ltb→lt a (2 ^ 31) e)
  | inr e ↦ rw e (ground arith)
]

convert-signed :
    (a : ℕ) (args : List ℕ) (s : State)
    → a < 2 ^ 32
    → a ≢ 2 ^ 31
    → Converts 100 a args s (IsSignedNumeral (signed32 a))
unfolding convert
convert-signed a args s h ne =
    let (out, is, e) = printl_lem (signed32 a) colour s (signed32-FitsLong a h ne) in
    (out, is, rw e)

convert-hex :
    (c a : ℕ) (args : List ℕ) (s : State)
    → (c ≡ 88) ⊎ (c ≡ 112)
    → a < 2 ^ 32
    → Converts c a args s (IsHexNumeral true a)
unfolding convert
convert-hex c a args s spec h =
    let (out, is, e) = printx_lem colour true 11 a s (omega arith) in
    (out, is, ground (arith, spec, e))

-- The loop gets past the pieces, with whatever stands behind them.
unfoldable pub Loops : List Piece → State → Type 0
Loops ps s =
    (out : List ℕ) × AllShownAs ps out
    × ((rest : List ℕ)
        → printf_loop 12 (format ps ++ rest) (at (arguments ps) s)
          ≡ printf_loop 12 rest (at [] (put_str out colour s)))

Loops-convert :
    (p : Piece) (c a : ℕ) (ps : List Piece) (s : State)
    → IsPlain c
    → Converts c a (arguments ps) s (ShownAs p)
    → ((t : State) → Loops ps t)
    → (out : List ℕ) × AllShownAs (p ∷ ps) out
      × ((rest : List ℕ)
          → printf_loop 12 (37 ∷ c ∷ (format ps ++ rest)) (at (a ∷ arguments ps) s)
            ≡ printf_loop 12 rest (at [] (put_str out colour s)))
unfolding Loops
Loops-convert p c a ps s plain (now, shown, e) loops =
    let (later, all, r) = loops (put_str now colour s) in
    (
      now ++ later,
      (now, later, shown, all, refl),
      λ rest.
          rw
            (
              printf_loop-convert 12 c (format ps ++ rest) (a ∷ arguments ps) s plain,
              e,
              put_str-append,
            )
            (r rest),
    )

pub pieces_loop : (ps : List Piece) (s : State) → All IsShowable ps → Loops ps s
unfolding Loops
pieces_loop [] s h = ([], refl, λ rest. unfold put_str in refl)
pieces_loop (text cs ∷ ps) s h =
    let (later, all, r) = pieces_loop ps (put_str cs colour s) h.1 in
    (
      cs ++ later,
      (cs, later, refl, all, refl),
      λ rest.
          rw
            (
              append_assoc cs (format ps) rest,
              printf_loop-plain 12 cs (format ps ++ rest) (arguments ps) s h.0,
              put_str-append,
            )
            (r rest),
    )
pieces_loop (unsigned a ∷ ps) s h =
    Loops-convert (unsigned a) 117 a ps s (omega arith) (convert-unsigned a (arguments ps) s h.0)
      (λ t. pieces_loop ps t h.1)
pieces_loop (signed a ∷ ps) s h =
    Loops-convert (signed a) 100 a ps s (omega arith)
      (convert-signed a (arguments ps) s h.0.0 h.0.1) (λ t. pieces_loop ps t h.1)
pieces_loop (hex a ∷ ps) s h =
    Loops-convert (hex a) 88 a ps s (omega arith) (convert-hex 88 a (arguments ps) s (inl refl) h.0)
      (λ t. pieces_loop ps t h.1)
pieces_loop (pointer a ∷ ps) s h =
    Loops-convert (pointer a) 112 a ps s (omega arith)
      (convert-hex 112 a (arguments ps) s (inr refl) h.0) (λ t. pieces_loop ps t h.1)
pieces_loop (char a ∷ ps) s h =
    Loops-convert (char a) 99 a ps s (omega arith) (a ∷ [], refl, unfold convert put_str in refl)
      (λ t. pieces_loop ps t h.1)

-- A percent sign cannot be shown: a second one behind the first is taken for the same one, whatever
-- follows and whatever the arguments.
pub printf-percent_percent :
    (n : ℕ) (fmt args : List ℕ) (s : State)
    → printf n (37 ∷ 37 ∷ fmt) args s ≡ printf n (37 ∷ fmt) args s
unfolding printf printf_loop step
printf-percent_percent n fmt args s = refl

-- A format of showable pieces, given their arguments, is shown as the texts of the pieces, one
-- after the other, by `putchar`, and `printf` returns.
pub printf_lem :
    (ps : List Piece) (s : State)
    → All IsShowable ps
    → (out : List ℕ) × AllShownAs ps out
      × (printf 12 (format ps) (arguments ps) s ≡ done (put_str out colour s))
unfolding printf printf_loop Loops
printf_lem ps s h =
    let (out, shown, e) = pieces_loop ps s h in
    (
      out,
      shown,
      ap (λ fmt. printf_loop 12 fmt (at (arguments ps) s) >>= λ cursor. done cursor.state)
            (sym (append-nil (format ps)))
          ∙ rw (e []) refl,
    )
