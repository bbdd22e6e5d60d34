-- ===== src/Console/Scroll.antt =====
-- The scrolling loops of `print_char`, and `clear`, as block operations on the frame buffer.
use ganos.Base.{
  ℕ, ◌+◌, ◌-◌, ◌*◌, ◌≤◌, ◌<◌, ◌≡◌, refl, arith, ◌&&◌, ltb, leb, if◌then◌else◌, Mem, store,
  count_up-keeps,
}
use ganos.Console.{Screen, rows, cols, copy_cell, copy_row, copy_rows, scroll, clear}

-- `m` is `before` with the first `n` bytes of the row above `y` taken from row `y`.
abbrev RowCopied : Mem → ℕ → ℕ → Mem → Type 0
RowCopied before y n m =
    (k : ℕ)
    → m k
      ≡ (if leb ((y - 1) * 160) k && ltb k ((y - 1) * 160 + n) then before (k + 160) else before k)

copy_cell-RowCopied :
    (before : Mem) (y x : ℕ) (m : Mem)
    → 1 ≤ y
    → x < 80
    → RowCopied before y (2 * x) m
    → RowCopied before y (2 * (x + 1)) (copy_cell y x m)
unfolding copy_cell
copy_cell-RowCopied before y x m hy hx h k =
    ground (arith, h k, h (y * 80 * 2 + x * 2), h (y * 80 * 2 + x * 2 + 1))

copy_row-RowCopied : (before : Mem) (y : ℕ) → 1 ≤ y → RowCopied before y 160 (copy_row y before)
unfolding copy_row
copy_row-RowCopied before y hy =
    count_up-keeps (copy_cell y) (λ x m. RowCopied before y (2 * x) m) 80
      (λ x m hx h. copy_cell-RowCopied before y x m hy hx h) 0 80 before (λ k. ground arith)
      (omega arith)

-- The rows above `y` hold what stood one row below them in `before`.
abbrev Scrolled : Mem → ℕ → Mem → Type 0
Scrolled before y m = (k : ℕ) → m k ≡ (if ltb k ((y - 1) * 160) then before (k + 160) else before k)

copy_row-Scrolled :
    (before : Mem) (y : ℕ) (m : Mem)
    → 1 ≤ y
    → Scrolled before y m
    → Scrolled before (y + 1) (copy_row y m)
copy_row-Scrolled before y m hy h k = ground (arith, copy_row-RowCopied m y hy k, h k, h (k + 160))

copy_rows_lem : (m : Mem) → Scrolled m 24 (copy_rows m)
unfolding copy_rows
copy_rows_lem m =
    (count_up-keeps copy_row (λ y n. (1 ≤ y) × Scrolled m y n) 24
      (λ y n _ h. (omega (arith, h.0), copy_row-Scrolled m y n h.0 h.1)) 1 23 m
      (omega arith, λ k. ground arith) (omega arith)).1

-- With the cursor below row 24, scrolling moves the rows 1 to 23 up by one, byte by byte, and
-- changes no byte from row 23 on. Otherwise it changes nothing. It never moves the cursor.
pub scroll_lem :
    (s : Screen)
    → ((k : ℕ)
        → (scroll s).fb k
          ≡ (if ltb rows s.row && ltb k ((rows - 1) * cols * 2) then s.fb (k + 160) else s.fb k))
      × ((scroll s).row ≡ s.row)
      × ((scroll s).col ≡ s.col)
unfolding scroll
scroll_lem s = (λ k. ground (arith, copy_rows_lem s.fb k), ground arith, ground arith)

-- `clear` writes zero to the 24 rows of 160 bytes, to no other byte, and homes the cursor.
pub clear_lem :
    (s : Screen)
    → ((k : ℕ) → (clear s).fb k ≡ (if ltb k (rows * cols * 2) then 0 else s.fb k))
      × ((clear s).row ≡ 0)
      × ((clear s).col ≡ 0)
unfolding clear
clear_lem s = (
  count_up-keeps (λ i fb. store fb i 0) (λ n m. (k : ℕ) → m k ≡ (if ltb k n then 0 else s.fb k))
      3840 (λ i m _ h k. ground (arith, h k)) 0 3840 s.fb (λ k. ground arith) (omega arith),
  refl,
  refl,
)
