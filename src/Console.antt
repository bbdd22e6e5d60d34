-- ===== src/Console.antt =====
-- sys/kern/src/x86/early_console.c: the text console on the VGA frame buffer. The static variables
-- `row` and `col` and the bytes behind `fb_ptr` are the state; `rows` and `cols` are never assigned.
pub mod Scroll
pub mod Text
pub mod Number
pub mod Overrun
pub mod Api
mod Tests
use ganos.Base.{
  ℕ, zero, suc, ◌+◌, ◌-◌, ◌*◌, ◌/◌, ◌%◌, ◌^◌, List, [], ◌∷◌, ◌==◌, ltb, if◌then◌else◌, Mem, store,
  u8, u16, count_up,
}
use ganos.Base.Run.{Run, done, undefined, out_of_fuel, ◌>>=◌}
use ganos.Base.Int.{ℤ, pos, negsuc}

-- Bytes are counted from `fb_ptr`; the memory goes on behind the 4000 bytes of the visible page.
pub record Screen : Type 0 where
  pub fb : Mem
  pub row : ℕ
  pub col : ℕ

abbrev pub rows : ℕ
rows = 24

abbrev pub cols : ℕ
cols = 80

-- The operands are promoted to `int`, which 65535 * 80 * 2 + 65535 * 2 does not overflow.
pub fb_index : ℕ → ℕ → ℕ
fb_index x y = y * cols * 2 + x * 2

-- The `switch` of `print_char`.
put_char : ℕ → Screen → Screen
unfolding fb_index
put_char c s =
    if c == 10
    then record s { col = 0; row = u16 (s.row + 1) }
    else let i = fb_index s.col s.row in
      record s { fb = store (store s.fb i (u8 c)) (i + 1) 7; col = u16 (s.col + 1) }

wrap_col : Screen → Screen
wrap_col s = if ltb cols s.col then record s { row = u16 (s.row + 1); col = 0 } else s

-- The body of the two loops: one cell is copied to the row above.
copy_cell : ℕ → ℕ → Mem → Mem
unfolding fb_index
copy_cell y x fb =
    let up = store fb (fb_index x (y - 1)) (fb (fb_index x y)) in
    store up (fb_index x (y - 1) + 1) (up (fb_index x y + 1))

copy_row : ℕ → Mem → Mem
unfolding copy_cell
copy_row y fb = count_up (copy_cell y) 0 cols fb

copy_rows : Mem → Mem
unfolding copy_row
copy_rows fb = count_up copy_row 1 (rows - 1) fb

pub scroll : Screen → Screen
scroll s = if ltb rows s.row then record s { fb = copy_rows s.fb } else s

pub print_char : ℕ → Screen → Screen
unfolding put_char wrap_col
print_char c s = scroll (wrap_col (put_char c s))

pub print_str : List ℕ → Screen → Screen
print_str [] s = s
print_str (c ∷ cs) s = print_str cs (print_char c s)

-- PRINT_DEC_NUM(uint64_t, u64): `d < 0` is false for an unsigned `d`.
pub print_u64 : ℕ → ℕ → Screen → Run Screen
print_u64 zero d s = out_of_fuel
print_u64 (suc fuel) d s =
    let high = print_u64 fuel (d / 10) s in
    if d == 0 then done s else (high >>= λ s'. done (print_char (48 + d % 10) s'))

-- PRINT_DEC_NUM(int64_t, i64): `d * -1` overflows at INT64_MIN.
pub print_i64 : ℕ → ℤ → Screen → Run Screen
print_i64 zero d s = out_of_fuel
print_i64 (suc fuel) (negsuc n) s =
    let rest = print_i64 fuel (pos (n + 1)) (print_char 45 s) in
    if n + 1 == 2 ^ 63 then undefined else rest
print_i64 (suc fuel) (pos d) s =
    let high = print_i64 fuel (pos (d / 10)) s in
    if d == 0 then done s else (high >>= λ s'. done (print_char (48 + d % 10) s'))

pub clear : Screen → Screen
clear s = record { fb = count_up (λ i fb. store fb i 0) 0 (rows * cols * 2) s.fb; row = 0; col = 0 }
