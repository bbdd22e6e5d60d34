-- ===== src/Boot2.antt =====
-- boot/i386_fat.old/boot2.c and video.h: the second stage of the loader. Its screen, its `printf`,
-- the memory totals of `entry32` and the search for the SMBIOS entry point. The global `screen` and
-- the memory are the state. `unsigned long` and `size_t` have 32 bits, `long` and `int` too.
pub mod Clear
pub mod Number
pub mod Hex
pub mod Printf
pub mod Smbios
pub mod Memory
pub mod Cpuid
mod Tests
use Prim.Native.Nat.{bit_or}
use ganos.Base.{
  ℕ, zero, suc, ◌+◌, ◌-◌, ◌*◌, ◌/◌, ◌%◌, ◌^◌, List, [], ◌∷◌, ◌==◌, ltb, leb, if◌then◌else◌, Mem,
  store, u8, u16, u32, Bool, true, false, ◌&&◌, ◌||◌, count_up,
}
use ganos.Base.Run.{Run, done, undefined, out_of_fuel, ◌>>=◌, in_bounds}
use ganos.Base.Int.{ℤ, pos, negsuc}

-- `struct video_mode`.
pub record VideoMode : Type 0 where
  pub mode : ℕ
  pub columns : ℕ
  pub active_page : ℕ

-- `struct display`: `index`, `width` and `height` are `uint16_t`, `buffer` is an address.
pub record Display : Type 0 where
  pub buffer : ℕ
  pub index : ℕ
  pub width : ℕ
  pub height : ℕ

-- The global `screen` and the memory that `screen.buffer` points into.
pub record State : Type 0 where
  pub screen : Display
  pub mem : Mem

abbrev null : ℕ
null = 0

buffer_of_mode : ℕ → ℕ
buffer_of_mode mode =
    if ltb 0x10 mode
    then null
    else if leb 0x0D mode
    then 0xA0000
    else if leb 0x07 mode
    then 0xB0000
    else 0xB8000

-- The `switch` of `init_screen`: a mode with no case leaves the size as it is.
size_of_mode : ℕ → Display → Display
size_of_mode mode d =
    if mode == 0 || mode == 1
    then record d { width = 40; height = 25 }
    else if mode == 2 || mode == 3 || mode == 7
    then record d { width = 80; height = 25 }
    else if mode == 4 || mode == 5 || mode == 9 || mode == 0x0D
    then record d { width = 320; height = 200 }
    else if mode == 6 || mode == 0x0A || mode == 0x0E
    then record d { width = 640; height = 200 }
    else if mode == 8
    then record d { width = 160; height = 200 }
    else if mode == 0x0F || mode == 0x10
    then record d { width = 640; height = 350 }
    else d

-- `screen.buffer[screen.index] = v`, for a buffer that is not a null pointer.
write : ℕ → State → State
write v s = record s { mem = store s.mem (s.screen.buffer + s.screen.index) (u8 v) }

-- The loop of `clear_screen`: `screen.index` is a `uint16_t`, the bound is computed in `int`.
-- The fuel counts the rounds. The buffer of the modes above 0x10 is a null pointer.
clear_from : ℕ → State → Run State
unfolding write
clear_from zero s = out_of_fuel
clear_from (suc fuel) s =
    let s' = write 0 s in
    let rest =
      clear_from fuel
        (record s' { screen = record s.screen { index = u16 (s.screen.index + 1) } }) in
    if ltb s.screen.index (s.screen.width * s.screen.height * 2)
    then if s.screen.buffer == 0 then undefined else rest
    else done (record s { screen = record s.screen { index = 0 } })

pub clear_screen : ℕ → State → Run State
clear_screen fuel s = clear_from fuel (record s { screen = record s.screen { index = 0 } })

pub init_screen : ℕ → VideoMode → State → Run State
unfolding buffer_of_mode size_of_mode
init_screen fuel vmode s =
    let d = record s.screen { index = 0; buffer = buffer_of_mode vmode.mode } in
    clear_screen fuel (record s { screen = size_of_mode vmode.mode d })

-- `enum colour`, whose constants count from 0.
pub data Colour : Type 0 where
  colour_black colour_blue colour_green colour_cyan : Colour
  colour_red colour_purple colour_brown colour_grey : Colour
  colour_dark_grey colour_light_blue colour_light_green colour_light_cyan : Colour
  colour_light_red colour_light_purple colour_yellow colour_white : Colour

abbrev pub number : Colour → ℕ
number colour_black = 0
number colour_blue = 1
number colour_green = 2
number colour_cyan = 3
number colour_red = 4
number colour_purple = 5
number colour_brown = 6
number colour_grey = 7
number colour_dark_grey = 8
number colour_light_blue = 9
number colour_light_green = 10
number colour_light_cyan = 11
number colour_light_red = 12
number colour_light_purple = 13
number colour_yellow = 14
number colour_white = 15

-- `CHAR_COLOUR(bg, fg)`
abbrev pub char_colour : ℕ → ℕ → ℕ
char_colour bg fg = bit_or (u32 (bg * 2 ^ 4)) fg

advance : State → State
advance s = record s { screen = record s.screen { index = u16 (s.screen.index + 1) } }

-- The wrap test of `putchar`, in `int`.
wrap : State → State
wrap s =
    if s.screen.index == s.screen.width * s.screen.height * 2
    then record s { screen = record s.screen { index = 0 } }
    else s

pub putchar : ℕ → ℕ → State → State
unfolding write advance wrap
putchar c colour s = wrap (advance (write colour (advance (write c s))))

-- `screen.index -= screen.index % (screen.width * 2)`: division by zero at width 0.
pub carriage_return : State → Run State
carriage_return s =
    if s.screen.width == 0
    then undefined
    else done (record s {
      screen = record s.screen { index = s.screen.index - s.screen.index % (s.screen.width * 2) };
    })

pub line_feed : State → State
line_feed s = record s {
  screen = record s.screen { index = u16 (s.screen.index + s.screen.width * 2) };
}

pub tab : ℕ → State → State
tab colour s = count_up (λ i t. putchar 0 colour t) 0 4 s

pub printc : List ℕ → ℕ → State → Run State
unfolding carriage_return line_feed tab
printc [] colour s = done s
printc (c ∷ str) colour s =
    (if c == 9
      then done (tab colour s)
      else if c == 13
      then carriage_return s
      else if c == 10
      then done (line_feed s)
      else done (putchar c colour s))
    >>= printc str colour

-- print_fmt(ul, unsigned long): `t < 0` is false for an unsigned `t`.
pub printul : ℕ → ℕ → ℕ → Bool → State → Run State
printul zero t colour recurse s = out_of_fuel
printul (suc fuel) t colour recurse s =
    let high = printul fuel (t / 10) colour true s in
    if ltb 0 t
    then (high >>= λ s'. done (putchar (48 + t % 10) colour s'))
    else if recurse
    then done s
    else done (putchar 48 colour s)

-- print_fmt(l, long): `t * -1` overflows at LONG_MIN.
pub printl : ℕ → ℤ → ℕ → Bool → State → Run State
printl zero t colour recurse s = out_of_fuel
printl (suc fuel) (negsuc n) colour recurse s =
    let rest = printl fuel (pos (n + 1)) colour true (putchar 45 colour s) in
    if n + 1 == 2 ^ 31 then undefined else rest
printl (suc fuel) (pos t) colour recurse s =
    let high = printl fuel (pos (t / 10)) colour true s in
    if ltb 0 t
    then (high >>= λ s'. done (putchar (48 + t % 10) colour s'))
    else if recurse
    then done s
    else done (putchar 48 colour s)

pub hex_digit : Bool → ℕ → ℕ
hex_digit uppercase d = if ltb d 10 then 48 + d else if uppercase then 65 + d - 10 else 97 + d - 10

pub printx : ℕ → ℕ → ℕ → Bool → Bool → State → Run State
unfolding hex_digit
printx zero x colour recurse uppercase s = out_of_fuel
printx (suc fuel) x colour recurse uppercase s =
    let high = printx fuel (x / 16) colour true uppercase s in
    if ltb 0 x
    then (high >>= λ s'. done (putchar (hex_digit uppercase (x % 16)) colour s'))
    else if recurse
    then done s
    else done (putchar 48 colour s)
