-- ===== src/Console/Overrun.antt =====
-- What happens at the edges of the screen.
use ganos.Base.{
  sym, ap, ℕ, ◌+◌, ◌*◌, ◌≤◌, ◌<◌, ◌^◌, ◌≡◌, ◌≢◌, refl, arith, List, [], ◌∷◌, ◌∙◌, length, ltb,
  if◌then◌else◌, Mem, store, u8, fun_ext,
}
use ganos.Console.{Screen, rows, cols, fb_index, scroll, put_char, wrap_col, print_char, print_str}
use ganos.Console.Scroll.{scroll_lem}
use ganos.Console.Text.{print_char-on_screen}

abbrev after_edge : ℕ → Screen → Screen
after_edge c s = record {
  fb = store (store s.fb (s.row * 160 + 160) (u8 c)) (s.row * 160 + 160 + 1) 7;
  row = s.row + 1;
  col = 0;
}

print_char-edge :
    (c : ℕ) (s : Screen)
    → c ≢ 10
    → s.col ≡ cols
    → s.row + 1 ≤ rows
    → print_char c s ≡ after_edge c s
unfolding print_char scroll
print_char-edge c s n h k = ground arith

-- Two bytes that are stored again leave no trace.
store-store :
    (m : Mem) (i j a b c : ℕ)
    → i ≡ j
    → store (store (store (store m i a) (i + 1) 7) j c) (j + 1) 7
      ≡ store (store (store (store m i b) (i + 1) 7) j c) (j + 1) 7
store-store m i j a b c e = fun_ext λ k. ground arith

same_memory :
    (a b c : ℕ) (s : Screen)
    → let j = fb_index 0 (s.row + 1) in
      store (store (after_edge a s).fb j (u8 c)) (j + 1) 7
      ≡ store (store (after_edge b s).fb j (u8 c)) (j + 1) 7
unfolding fb_index
same_memory a b c s =
    store-store s.fb (s.row * 160 + 160) ((s.row + 1) * 80 * 2 + 0 * 2) (u8 a) (u8 b) (u8 c)
      (omega arith)

-- The character printed at column 80 is lost: whatever it is, the next one replaces it, because
-- the line is ended only past column 80, behind the first cell of the next row.
print_str-column_80_lost :
    (a b c : ℕ) (s : Screen)
    → a ≢ 10
    → b ≢ 10
    → c ≢ 10
    → s.col ≡ cols
    → s.row + 1 ≤ rows
    → print_str (a ∷ c ∷ []) s ≡ print_str (b ∷ c ∷ []) s
unfolding print_str
print_str-column_80_lost a b c s na nb nc h k =
    rw (print_char-edge a s na h k, print_char-edge b s nb h k)
      (print_char-on_screen c (after_edge a s) nc (omega arith) k
        ∙ ap (λ (m : Mem). record { fb = m; row = s.row + 1; col = 1 }) (same_memory a b c s)
        ∙ sym (print_char-on_screen c (after_edge b s) nc (omega arith) k))

print_char-below :
    (c : ℕ) (s : Screen) (k : ℕ)
    → rows < s.row
    → s.row + 1 < 2 ^ 16
    → k < 4000
    → ((print_char c s).fb k ≡ (if ltb k 3680 then s.fb (k + 160) else s.fb k))
      × (s.row ≤ (print_char c s).row)
      × ((print_char c s).row ≤ s.row + 1)
unfolding print_char
print_char-below c s k h w v =
    let (fb, row, col) = scroll_lem (wrap_col (put_char c s)) in ground (arith, fb k, row)

bottom-print_char :
    (c : ℕ) (s : Screen) (k : ℕ)
    → rows < s.row
    → s.row + 1 < 2 ^ 16
    → 3680 ≤ k
    → k < 4000
    → (print_char c s).fb k ≡ s.fb k
bottom-print_char c s k h w l v = ground (arith, print_char-below c s k)

-- Once the cursor is below row 24, printing does not bring it back, and the bottom line of the
-- page (bytes 3680 to 3999) keeps its bytes whatever is printed, as long as the string is too
-- short for the 16-bit row number to wrap round.
pub print_str-below_lost :
    (cs : List ℕ) (s : Screen)
    → rows < s.row
    → s.row + length cs < 2 ^ 16
    → (rows < (print_str cs s).row)
      × ((k : ℕ) → 3680 ≤ k → k < 4000 → (print_str cs s).fb k ≡ s.fb k)
unfolding print_str
print_str-below_lost [] s h w = (h, λ k l u. refl)
print_str-below_lost (c ∷ cs) s h w =
    let (_, up, near) = print_char-below c s 0 h (omega arith) (omega arith) in
    let (low, same) = print_str-below_lost cs (print_char c s) (omega arith) (omega arith) in
    (low, λ k l u. same k l u ∙ bottom-print_char c s k h (omega arith) l u)
