-- ===== src/Console/Text.antt =====
-- What `print_char` and `print_str` put on the screen.
use ganos.Base.{
  zero, suc, ap₂, suc, ◌∙◌, get_or, ◌⊎◌, length, All, ℕ, ◌+◌, ◌*◌, ◌^◌, ◌≤◌, ◌<◌, ◌≡◌, ◌≢◌, refl,
  arith, List, [], ◌∷◌, ◌++◌, Mem, store, u8,
}
use ganos.Console.{Screen, rows, cols, fb_index, scroll, print_char, print_str}

pub print_str-append :
    (xs ys : List ℕ) (s : Screen) → print_str (xs ++ ys) s ≡ print_str ys (print_str xs s)
unfolding print_str
print_str-append [] ys s = refl
print_str-append (c ∷ cs) ys s = print_str-append cs ys (print_char c s)

-- The cursor stays within the columns, up to the one behind the last, and within `uint16_t`.
pub record IsValid (s : Screen) : Type 0 where
  pub col_in : s.col ≤ cols
  pub row_in : s.row < 2 ^ 16

print_char-IsValid : (c : ℕ) {s : Screen} → IsValid s → IsValid (print_char c s)
unfolding print_char scroll
print_char-IsValid c v = ground arith

-- Printing any string keeps the cursor valid.
pub print_str-IsValid : (cs : List ℕ) {s : Screen} → IsValid s → IsValid (print_str cs s)
unfolding print_str
print_str-IsValid [] v = v
print_str-IsValid (c ∷ cs) v = print_str-IsValid cs (print_char-IsValid c v)

-- The memory after the bytes `cs` were shown from offset `i` on, in grey on black.
abbrev shown : Mem → ℕ → List ℕ → Mem
shown m i [] = m
shown m i (c ∷ cs) = shown (store (store m i (u8 c)) (i + 1) 7) (i + 2) cs

pub print_char-on_screen :
    (c : ℕ) (s : Screen)
    → c ≢ 10
    → s.col < cols
    → s.row ≤ rows
    → print_char c s ≡ record s {
      fb = store (store s.fb (fb_index s.col s.row) (u8 c)) (fb_index s.col s.row + 1) 7;
      col = s.col + 1;
    }
unfolding print_char scroll
print_char-on_screen c s n h k = ground arith

shown-outside :
    (cs : List ℕ) (m : Mem) (i k : ℕ) → (k < i) ⊎ (i + 2 * length cs ≤ k) → shown m i cs k ≡ m k
shown-outside [] m i k h = refl
shown-outside (c ∷ cs) m i k h =
    ground (arith, shown-outside cs (store (store m i (u8 c)) (i + 1) 7) (i + 2) k)

shown-inside :
    (cs : List ℕ) (m : Mem) (i j : ℕ)
    → j < length cs
    → (shown m i cs (i + 2 * j) ≡ u8 (get_or cs j 0)) × (shown m i cs (i + 2 * j + 1) ≡ 7)
shown-inside [] m i j h = absurd (omega arith)
shown-inside (c ∷ cs) m i zero h =
    let m' : Mem = store (store m i (u8 c)) (i + 1) 7 in
    ground
      (arith, shown-outside cs m' (i + 2) (i + 2 * 0), shown-outside cs m' (i + 2) (i + 2 * 0 + 1))
shown-inside (c ∷ cs) m i (suc j) h =
    let m' : Mem = store (store m i (u8 c)) (i + 1) 7 in
    let rest = shown-inside cs m' (i + 2) j (omega arith) in
    let e : i + 2 * suc j ≡ i + 2 + 2 * j = omega arith in rw e rest

print_str-shown :
    (cs : List ℕ) (s : Screen)
    → All (λ c. c ≢ 10) cs
    → s.col + length cs ≤ cols
    → s.row ≤ rows
    → print_str cs s
      ≡ record s { fb = shown s.fb (fb_index s.col s.row) cs; col = s.col + length cs }
unfolding print_str fb_index
print_str-shown [] s a h k = ground arith
print_str-shown (c ∷ cs) s a h k =
    let t : Screen = record s {
      fb = store (store s.fb (fb_index s.col s.row) (u8 c)) (fb_index s.col s.row + 1) 7;
      col = s.col + 1;
    } in
    rw (print_char-on_screen c s a.0 (omega arith) k) (
      print_str-shown cs t a.1 (omega arith) k
      ∙ ap₂ (λ (i n : ℕ). record s { fb = shown t.fb i cs; col = n }) (omega arith) (omega arith))

-- A text without line feeds that fits the rest of the line stands afterwards in the cells from the
-- cursor on, in grey on black. No other byte changes, and the cursor stands behind the text.
pub print_str_text :
    (cs : List ℕ) (s : Screen)
    → All (λ c. c ≢ 10) cs
    → s.col + length cs ≤ cols
    → s.row ≤ rows
    → let t = print_str cs s in
      ((j : ℕ)
        → j < length cs
        → (t.fb (fb_index (s.col + j) s.row) ≡ u8 (get_or cs j 0))
          × (t.fb (fb_index (s.col + j) s.row + 1) ≡ 7))
      × ((k : ℕ)
          → (k < fb_index s.col s.row) ⊎ (fb_index (s.col + length cs) s.row ≤ k)
          → t.fb k ≡ s.fb k)
      × (t.row ≡ s.row)
      × (t.col ≡ s.col + length cs)
unfolding fb_index
print_str_text cs s a h k = rw (print_str-shown cs s a h k) (
  λ j l.
      let e : fb_index (s.col + j) s.row ≡ fb_index s.col s.row + 2 * j = omega arith in
      rw e (shown-inside cs s.fb (fb_index s.col s.row) j l),
  λ i o. shown-outside cs s.fb (fb_index s.col s.row) i (ground arith),
  refl,
  refl,
)
