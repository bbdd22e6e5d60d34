-- ===== src/Cat.antt =====
-- bin/cat/src/main.c, with `getopt`, `fopen` and the contents of standard input as parameters, and
-- bin/echo/src/main.c.
pub mod Operands
pub mod Main
mod Tests
use ganos.Base.{
  ℕ, zero, suc, ◌+◌, List, [], ◌∷◌, ◌++◌, ◌==◌, if◌then◌else◌, Bool, true, false, Option, none,
  some, codes, length, drop, same, Getopt, Scan,
}

-- `rval`, what standard output has got, the names reported on standard error, and the bytes of
-- standard input that are left, which is a stream that ends once.
pub record State : Type 0 where
  pub rval : ℕ
  pub printed : List ℕ
  pub errors : List (List ℕ)
  pub stdin : List ℕ

-- One byte after the other, until `fread` returns 0.
pub cat_file : List ℕ → State → State
cat_file [] s = s
cat_file (c ∷ cs) s = cat_file cs (record s { printed = s.printed ++ c ∷ [] })

cat_stdin : State → State
unfolding cat_file
cat_stdin s = record (cat_file s.stdin s) { stdin = [] }

-- The loop over the options: `u` changes the buffering only, any other one ends the program.
options_loop : List (ℕ × List ℕ) → Bool
options_loop [] = true
options_loop ((c, arg) ∷ options) =
    let rest = options_loop options in if c == 117 then rest else false

module _ (fopen : List ℕ → Option (List ℕ)) where
  -- The body of the loop over the operands.
  cat_operand : List ℕ → State → State
  unfolding cat_file cat_stdin
  cat_operand name s = if same name (codes "-") then cat_stdin s else elim (fopen name) [
    | none ↦ record s { errors = s.errors ++ name ∷ []; rval = 1 }
    | some content ↦ cat_file content s
  ]

  pub operands_loop : List (List ℕ) → State → State
  operands_loop [] s = s
  operands_loop (name ∷ names) s = operands_loop names (cat_operand name s)

  pub main : Getopt → List (List ℕ) → State → State
  unfolding options_loop cat_stdin
  main getopt argv s =
      let scan = getopt (codes "uh") argv in
      if options_loop scan.options
      then if scan.optind == length argv
        then cat_stdin s
        else operands_loop (drop scan.optind argv) s
      else record s { rval = 1 }

-- The operands of `echo` from the second string of its vector on, each with what follows it.
echo : List (List ℕ) → List ℕ
echo [] = []
echo (arg ∷ []) = arg ++ 10 ∷ []
echo (arg ∷ next ∷ args) = arg ++ 32 ∷ echo (next ∷ args)
