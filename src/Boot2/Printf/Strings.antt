-- ===== src/Boot2/Printf/Strings.antt =====
-- `%s` on a string that the screen does not overlap.
use ganos.Base.{
  ℕ, zero, suc, ◌+◌, ◌*◌, ◌≤◌, ◌<◌, ◌^◌, ◌≡◌, ◌≢◌, ◌⊎◌, refl, ap, ◌∙◌, arith, List, [], ◌∷◌, Mem,
  length, u32, codes, ◌-◌, ◌%◌,
}
use ganos.Base.Run.{done, ◌>>=◌}
use ganos.Boot2.{State, putchar, carriage_return, line_feed}
use ganos.Boot2.Number.{put_str, put_str-WithinBuffer, IsInside, WithinBuffer, putchar-WithinBuffer}
use ganos.Boot2.Printf.{colour, put_mem, convert, step, printf_loop, printf}

-- The string `cs` stands in memory at `a`, with its NUL.
abbrev pub StringAt : Mem → ℕ → List ℕ → Type 0
StringAt m a [] = m a ≡ 0
StringAt m a (c ∷ cs) = (m a ≡ c) × (c ≢ 0) × StringAt m (a + 1) cs

-- The `n` bytes from `a` on are not on the screen.
abbrev pub OffScreen : ℕ → ℕ → State → Type 0
OffScreen a n s =
    (a + n ≤ s.screen.buffer) ⊎ (s.screen.buffer + s.screen.width * s.screen.height * 2 ≤ a)

StringAt-kept :
    (s t : State) (a : ℕ) (cs : List ℕ)
    → WithinBuffer s t
    → OffScreen a (suc (length cs)) s
    → StringAt s.mem a cs
    → StringAt t.mem a cs
StringAt-kept s t a [] w off h = w.outside a (ground (arith, off)) ∙ h
StringAt-kept s t a (c ∷ cs) w off h = (
  w.outside a (ground (arith, off)) ∙ h.0,
  h.1,
  StringAt-kept s t (a + 1) cs w (ground (arith, off)) h.2,
)

put_mem_lem :
    (fuel a : ℕ) (cs : List ℕ) (s : State)
    → StringAt s.mem a cs
    → IsInside s
    → OffScreen a (suc (length cs)) s
    → a + length cs < 2 ^ 32
    → length cs < fuel
    → put_mem fuel a s ≡ done (put_str cs colour s)
unfolding put_mem put_str
put_mem_lem zero a cs s h v off small fuelled = absurd (omega (arith, fuelled))
put_mem_lem (suc fuel) a [] s h v off small fuelled = ground (arith, h)
put_mem_lem (suc fuel) a (c ∷ cs) s h v off small fuelled =
    let t = putchar c colour s in
    let (inside, within) = putchar-WithinBuffer c colour s v in
    let e : u32 (a + 1) ≡ a + 1 = omega arith in
    let rest =
      put_mem_lem fuel (a + 1) cs t (StringAt-kept s t (a + 1) cs within (ground (arith, off)) h.2)
        inside (ground (arith, off, within.buffer, within.width, within.height)) (omega arith)
        (omega arith) in
    rw (h.0, e) (ground (arith, h.1, rest))

-- What a carriage return and a line feed make of a screen that has a width.
abbrev pub new_line : State → State
new_line s = line_feed (record s {
  screen = record s.screen { index = s.screen.index - s.screen.index % (s.screen.width * 2) };
})

width-ne-zero : (s : State) → IsInside s → s.screen.width ≢ 0
width-ne-zero s v e = omega (arith, v.inside, ap (λ (w : ℕ). w * s.screen.height) e)

carriage_return-wide :
    (s : State)
    → IsInside s
    → carriage_return s
      ≡ done (record s {
        screen = record s.screen { index = s.screen.index - s.screen.index % (s.screen.width * 2) };
      })
unfolding carriage_return
carriage_return-wide s v = ground (arith, width-ne-zero s v)

convert-string :
    (fuel a : ℕ) (s : State)
    → convert fuel 115 (a ∷ []) s ≡ (put_mem fuel a s >>= λ s'. done ([], s'))
unfolding convert
convert-string fuel a s = refl

pub printf_string :
    (fuel a : ℕ) (cs : List ℕ) (s : State)
    → StringAt s.mem a cs
    → IsInside s
    → OffScreen a (suc (length cs)) s
    → a + length cs < 2 ^ 32
    → length cs < fuel
    → printf fuel (codes "%s\r\n") (a ∷ []) s ≡ done (new_line (put_str cs colour s))
unfolding printf printf_loop step
printf_string fuel a cs s h v off small fuelled =
    let shown = put_mem_lem fuel a cs s h v off small fuelled in
    let (inside, within) = put_str-WithinBuffer cs colour s v in
    rw (convert-string fuel a s, shown, carriage_return-wide (put_str cs colour s) inside) refl
