-- ===== src/Lex/Stream.antt =====
-- `parse` of usr/bin/lex/main.c on the bytes of a stream: the loop over its own `getline`, which
-- reads by `fgets`, with the block that the calls share.
use ganos.Base.{zero, false, suc, ℕ, List, Bool, Option, none, some}
use ganos.Base.Run.{Run, done, undefined, out_of_fuel, ◌>>=◌}
use ganos.Getdelim.{Buffer, Caller, Outcome}
use ganos.Stdio.{Fgets, text_of}
use ganos.Lex.{State, parse_line}
use ganos.Lex.Getline.{getline}
mod Lines
mod Main
mod Sections
mod Tests

-- `buffer` as a C string.
pub line_of : Option Buffer → Run (List ℕ)
unfolding text_of
line_of none = undefined
line_of (some b) = text_of b

module _ (isspace : ℕ → Bool) (fgets : Fgets) (alloc : ℕ → Bool) where
  -- The fuel bounds the calls of `getline`, and `calls` those of `fgets` in each.
  pub parse_stream : ℕ → ℕ → List ℕ → Caller → State → Run State
  unfolding line_of
  parse_stream zero calls stream a s = out_of_fuel
  parse_stream (suc fuel) calls stream a s = getline fgets alloc calls false stream a >>= λ o.
      elim o.ret [
        | none ↦ done s
        | some line_len ↦ line_of o.caller.line >>= λ buffer.
            parse_line isspace buffer s >>= λ s'. parse_stream fuel calls o.stream o.caller s'
      ]

  -- `parse`, with no block yet; one fuel for both.
  pub parse_fp : ℕ → List ℕ → State → Run State
  unfolding parse_stream
  parse_fp fuel stream s = parse_stream fuel fuel stream (record { line = none; n = 0 }) s
