-- ===== src/Boot2/Memory/Screen.antt =====
-- The text screen that `entry32` sets up, and lines printed on it.
use ganos.Base.{
  ℕ, ◌+◌, ◌≡◌, ◌≢◌, ◌⊎◌, inl, inr, sym, ap, ◌∙◌, arith, List, [], ◌∷◌, ◌++◌, All, leb, ltb, ◌&&◌,
  if◌then◌else◌,
}
use ganos.Base.Run.{done}
use ganos.Boot2.{State, Display, VideoMode, init_screen, clear_screen, size_of_mode, buffer_of_mode}
use ganos.Boot2.Clear.{clear_screen_lem}
use ganos.Boot2.Printf.{printf}
use ganos.Boot2.Printf.Pieces.{Piece, format, arguments, IsShowable, AllShownAs}
use ganos.Boot2.Printf.Lines.{Far, Far-trans, put_line, put_line-Far, printf_line}

-- The text screen of 80 by 25.
abbrev pub text_screen : Display
text_screen = record { buffer = 0xB8000; index = 0; width = 80; height = 25 }

-- `t` has an empty text screen, and the rest of the memory of `s`.
pub record Cleared (s t : State) : Type 0 where
  pub screen_is : t.screen ≡ text_screen
  pub mem_is : (k : ℕ) → t.mem k ≡ (if leb 0xB8000 k && ltb k (0xB8000 + 4000) then 0 else s.mem k)

clear_text :
    (s : State)
    → s.screen ≡ text_screen
    → (t : State) × (clear_screen 4001 s ≡ done t) × Cleared s t
clear_text s e =
    let (t, runs, mem, screen) =
      clear_screen_lem (record { screen = text_screen; mem = s.mem }) (omega arith) (omega arith) in
    (
      t,
      ap (λ (d : Display). clear_screen 4001 (record { screen = d; mem = s.mem })) e ∙ runs,
      record { screen_is = screen; mem_is = mem },
    )

text_mode :
    (mode : ℕ) (d : Display)
    → (mode ≡ 2) ⊎ (mode ≡ 3)
    → size_of_mode mode (record d { index = 0; buffer = buffer_of_mode mode }) ≡ text_screen
unfolding size_of_mode buffer_of_mode
text_mode mode d (inl h) =
    ap (λ m. size_of_mode m (record d { index = 0; buffer = buffer_of_mode m })) h
text_mode mode d (inr h) =
    ap (λ m. size_of_mode m (record d { index = 0; buffer = buffer_of_mode m })) h

init_text :
    (v : VideoMode) (s : State)
    → (v.mode ≡ 2) ⊎ (v.mode ≡ 3)
    → (t : State) × (init_screen 4001 v s ≡ done t) × Cleared s t
unfolding init_screen
init_text v s h =
    let d = record s.screen { index = 0; buffer = buffer_of_mode v.mode } in
    let (t, runs, c) =
      clear_text (record s { screen = size_of_mode v.mode d }) (text_mode v.mode s.screen h) in
    (t, runs, record { screen_is = c.screen_is; mem_is = c.mem_is })

-- The screen is set up and cleared once more.
pub start_text :
    (v : VideoMode) (s : State)
    → (v.mode ≡ 2) ⊎ (v.mode ≡ 3)
    → (t : State) × (u : State) × (init_screen 4001 v s ≡ done t)
      × (clear_screen 4001 t ≡ done u)
      × Cleared s u
start_text v s h =
    let (t, runs, c) = init_text v s h in
    let (u, runs', c') = clear_text t c.screen_is in
    (
      t,
      u,
      runs,
      runs',
      record { screen_is = c'.screen_is; mem_is = λ k. c'.mem_is k ∙ ground (arith, c.mem_is k) },
    )

-- The lines that stand on the screen of `t`, from the one on which `s` ends.
unfoldable pub Reports : List (List Piece) → State → State → Type 0
Reports [] s t = t ≡ s
Reports (ps ∷ pss) s t = (line : List ℕ) × AllShownAs ps line × Reports pss (put_line line s) t

-- A line printed on the screen of `t`, which has gone on from `s`.
pub record Printed (s : State) (ps : List Piece) (t : State) : Type 0 where
  pub line : List ℕ
  pub shown : AllShownAs ps line
  pub runs : printf 12 (format ps ++ 13 ∷ 10 ∷ []) (arguments ps) t ≡ done (put_line line t)
  pub far : Far s (put_line line t)

pub print_next :
    (ps : List Piece) (s t : State)
    → s.screen.width ≢ 0
    → Far s t
    → All IsShowable ps
    → Printed s ps t
print_next ps s t wide f h =
    let (line, shown, runs) = printf_line ps t h (λ z. wide (sym f.width ∙ z)) f.index in
    record {
      line = line;
      shown = shown;
      runs = runs;
      far = Far-trans f (put_line-Far line t f.index);
    }
