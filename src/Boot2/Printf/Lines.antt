-- ===== src/Boot2/Printf/Lines.antt =====
-- `printf` on pieces with a carriage return and a line feed behind them.
use ganos.Base.{
  false, ℕ, ◌+◌, ◌≤◌, ◌<◌, ◌^◌, ◌≡◌, ◌≢◌, refl, sym, ap, ◌∙◌, arith, List, [], ◌∷◌, ◌++◌, All,
}
use ganos.Base.Run.{done, ◌>>=◌}
use ganos.Boot2.{State, putchar, carriage_return, line_feed}
use ganos.Boot2.Number.{put_str}
use ganos.Boot2.Printf.{colour, step, printf_loop, printf}
use ganos.Boot2.Printf.Pieces.{Piece, format, arguments, IsShowable, AllShownAs, Loops, pieces_loop}
use ganos.Boot2.Printf.Strings.{new_line}

-- From `s` on, `t` has the same screen but for an index of 16 bits, and the same memory behind the
-- 64 KiB that such an index reaches.
pub record Far (s t : State) : Type 0 where
  pub buffer : t.screen.buffer ≡ s.screen.buffer
  pub width : t.screen.width ≡ s.screen.width
  pub index : t.screen.index < 2 ^ 16
  pub high : (k : ℕ) → s.screen.buffer + 2 ^ 16 ≤ k → t.mem k ≡ s.mem k

pub Far-refl : (s : State) → s.screen.index < 2 ^ 16 → Far s s
Far-refl s h = record { buffer = refl; width = refl; index = h; high = λ k o. refl }

pub Far-trans : {s t u : State} → Far s t → Far t u → Far s u
Far-trans a b = record {
  buffer = b.buffer ∙ a.buffer;
  width = b.width ∙ a.width;
  index = b.index;
  high = λ k o. b.high k (omega (arith, o, a.buffer)) ∙ a.high k o;
}

putchar-Far : (c : ℕ) (s : State) → s.screen.index < 2 ^ 16 → Far s (putchar c colour s)
unfolding putchar
putchar-Far c s h = record {
  buffer = ground arith;
  width = ground arith;
  index = ground arith;
  high = λ k o. ground arith;
}

put_str-Far : (cs : List ℕ) (s : State) → s.screen.index < 2 ^ 16 → Far s (put_str cs colour s)
unfolding put_str
put_str-Far [] s h = Far-refl s h
put_str-Far (c ∷ cs) s h =
    let f = putchar-Far c s h in Far-trans f (put_str-Far cs (putchar c colour s) f.index)

new_line-Far : (s : State) → s.screen.index < 2 ^ 16 → Far s (new_line s)
unfolding line_feed
new_line-Far s h = record { buffer = refl; width = refl; index = omega arith; high = λ k o. refl }

-- A line of the screen.
pub put_line : List ℕ → State → State
put_line cs s = new_line (put_str cs colour s)

pub put_line-Far : (cs : List ℕ) (s : State) → s.screen.index < 2 ^ 16 → Far s (put_line cs s)
unfolding put_line
put_line-Far cs s h =
    let f = put_str-Far cs s h in Far-trans f (new_line-Far (put_str cs colour s) f.index)

line_end :
    (s : State)
    → s.screen.width ≢ 0
    → printf_loop 12 (13 ∷ 10 ∷ []) (record { fmt_specifier = false; args = []; state = s })
      ≡ done (record { fmt_specifier = false; args = []; state = new_line s })
unfolding printf_loop step carriage_return
line_end s wide = ground arith

pub printf_line :
    (ps : List Piece) (s : State)
    → All IsShowable ps
    → s.screen.width ≢ 0
    → s.screen.index < 2 ^ 16
    → (out : List ℕ) × AllShownAs ps out
      × (printf 12 (format ps ++ 13 ∷ 10 ∷ []) (arguments ps) s ≡ done (put_line out s))
unfolding printf put_line Loops
printf_line ps s h wide small =
    let (out, shown, e) = pieces_loop ps s h in
    let f = put_str-Far out s small in
    let t = put_str out colour s in
    (
      out,
      shown,
      ap (λ r. r >>= λ cursor. done cursor.state)
          (e (13 ∷ 10 ∷ []) ∙ line_end t (λ z. wide (sym f.width ∙ z))),
    )
