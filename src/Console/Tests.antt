-- ===== src/Console/Tests.antt =====
-- The console's theorems at concrete screens, and runs of its functions.
use ganos.Base.{
  ◌&&◌, ltb, if◌then◌else◌, ℕ, ◌+◌, ◌≤◌, ◌<◌, ◌≡◌, arith, List, [], ◌∷◌, ◌⊎◌, get_or, u8, IsDecimal,
}
use ganos.Base.Run.{done}
use ganos.Base.Int.{negsuc}
use ganos.Console.Scroll.{scroll_lem}
use ganos.Console.{scroll, Screen, rows, fb_index, print_str, print_u64, print_i64}
use ganos.Console.Text.{IsValid, print_str-IsValid, print_str_text}
use ganos.Console.Number.{IsSigned, print_dec_num}
use ganos.Console.Overrun.{print_str-below_lost}

abbrev blank : Screen
blank = record { fb = λ k. 0; row = 0; col = 0 }

abbrev below : Screen
below = record { fb = λ k. k; row = 25; col = 0 }

abbrev hi : List ℕ
hi = 72 ∷ 105 ∷ []

print_str-IsValid_example : IsValid (print_str hi blank)
print_str-IsValid_example = print_str-IsValid hi (omega arith)

print_str_text_example :
    let t = print_str hi blank in
    ((j : ℕ)
      → j < 2
      → (t.fb (fb_index (0 + j) 0) ≡ u8 (get_or hi j 0)) × (t.fb (fb_index (0 + j) 0 + 1) ≡ 7))
    × ((k : ℕ) → (k < fb_index 0 0) ⊎ (fb_index (0 + 2) 0 ≤ k) → t.fb k ≡ 0)
    × (t.row ≡ 0)
    × (t.col ≡ 2)
print_str_text_example = print_str_text hi blank (omega arith) (omega arith) (omega arith)

print_dec_num_example :
    ((cs : List ℕ) × IsDecimal 305 cs × (print_u64 21 305 blank ≡ done (print_str cs blank)))
    × ((cs : List ℕ) × IsSigned (negsuc 41) cs
        × (print_i64 21 (negsuc 41) blank ≡ done (print_str cs blank)))
print_dec_num_example = print_dec_num 305 (negsuc 41) blank (omega arith) (omega arith)

below_example :
    (rows < (print_str hi below).row)
    × ((k : ℕ) → 3680 ≤ k → k < 4000 → (print_str hi below).fb k ≡ k)
below_example = print_str-below_lost hi below (omega arith) (omega arith)

scroll_example :
    ((k : ℕ) → (scroll below).fb k ≡ (if ltb rows 25 && ltb k 3680 then k + 160 else k))
    × ((scroll below).row ≡ 25)
    × ((scroll below).col ≡ 0)
scroll_example = scroll_lem below
