-- ===== src/Boot2/Printf.antt =====
-- `printf` of boot/i386_fat.old/boot2.c. Each variadic argument is a 32-bit word of the stack, a
-- string argument the address of its bytes in memory.
pub mod Pieces
pub mod Strings
pub mod Lines
use ganos.Base.{
  ℕ, zero, suc, ◌+◌, ◌-◌, ◌^◌, List, [], ◌∷◌, ◌==◌, ltb, if◌then◌else◌, u32, Bool, true, false,
  ◌||◌,
}
use ganos.Base.Run.{Run, done, undefined, out_of_fuel, ◌>>=◌}
use ganos.Base.Int.{ℤ, pos, negsuc}
use ganos.Boot2.{
  State, number, colour_black, colour_grey, char_colour, putchar, carriage_return, line_feed, tab,
  printl, printul, printx,
}

-- `CHAR_COLOUR(COLOUR_BLACK, COLOUR_GREY)`
abbrev pub colour : ℕ
colour = char_colour (number colour_black) (number colour_grey)

-- The `int` that a 32-bit word stands for.
abbrev pub signed32 : ℕ → ℤ
signed32 w = if ltb w (2 ^ 31) then pos w else negsuc (2 ^ 32 - w - 1)

-- `va_arg`: reading past the last argument is undefined.
abbrev va_arg : List ℕ → Run (ℕ × List ℕ)
va_arg [] = undefined
va_arg (a ∷ args) = done (a, args)

-- The loop of `%s`: the bytes are read from memory as it is when their turn comes.
put_mem : ℕ → ℕ → State → Run State
put_mem zero sarg s = out_of_fuel
put_mem (suc fuel) sarg s =
    let rest = put_mem fuel (u32 (sarg + 1)) (putchar (s.mem sarg) colour s) in
    if s.mem sarg == 0 then done s else rest

-- What the loop of `printf` carries: `fmt_specifier`, the arguments left, and the machine.
pub record Cursor : Type 0 where
  pub fmt_specifier : Bool
  pub args : List ℕ
  pub state : State

-- The inner `switch`, for the character behind a `%`.
convert : ℕ → ℕ → List ℕ → State → Run (List ℕ × State)
convert fuel c args s =
    if c == 100
    then (va_arg args >>= λ (a, rest).
        printl fuel (signed32 a) colour false s >>= λ s'. done (rest, s'))
    else if c == 117
    then (va_arg args >>= λ (a, rest). printul fuel a colour false s >>= λ s'. done (rest, s'))
    else if c == 99
    then (va_arg args >>= λ (a, rest). done (rest, putchar a colour s))
    else if c == 112 || c == 88
    then (va_arg args >>= λ (a, rest). printx fuel a colour false true s >>= λ s'. done (rest, s'))
    else if c == 120
    then (va_arg args >>= λ (a, rest). printx fuel a colour false false s >>= λ s'. done (rest, s'))
    else if c == 115
    then (va_arg args >>= λ (a, rest). put_mem fuel a s >>= λ s'. done (rest, s'))
    else done (args, s)

-- The outer `switch`: one character of the format.
step : ℕ → ℕ → Cursor → Run Cursor
step fuel c k =
    if c == 13
    then (carriage_return k.state >>= λ s. done (record k { state = s }))
    else if c == 10
    then done (record k { state = line_feed k.state })
    else if c == 9
    then done (record k { state = tab colour k.state })
    else if c == 37
    then done (record k { fmt_specifier = true })
    else if k.fmt_specifier
    then (convert fuel c k.args k.state >>= λ (rest, s).
        done (record { fmt_specifier = false; args = rest; state = s }))
    else done (record k { state = putchar c colour k.state })

pub printf_loop : ℕ → List ℕ → Cursor → Run Cursor
printf_loop fuel [] k = done k
printf_loop fuel (c ∷ fmt) k = step fuel c k >>= printf_loop fuel fmt

-- `printf`, the `return 0` left off.
pub printf : ℕ → List ℕ → List ℕ → State → Run State
printf fuel fmt args s =
    printf_loop fuel fmt (record { fmt_specifier = false; args = args; state = s }) >>= λ k.
    done k.state
