-- ===== src/Lex.antt =====
-- usr/bin/lex/main.c: the options, the input files one after the other, and the sections of a lex
-- file. `getopt`, `fopen`, `isspace` and what `getline` reads of a stream are parameters.
pub mod Getline
pub mod Sections
mod Strip
pub mod Overrun
pub mod Stream
mod Tests
use ganos.Base.{
  ℕ, zero, suc, ◌+◌, ◌≡◌, List, [], ◌∷◌, ◌++◌, ◌==◌, ltb, leb, if◌then◌else◌, Bool, true, false,
  ◌&&◌, ◌⊎◌, inl, inr, Option, none, some, codes, length, drop, get_or, same, Getopt, Scan,
}
use ganos.Base.Run.{Run, done, undefined, ◌>>=◌}

-- `outf`: not set, standard output, or the file lex.yy.c (a null pointer if it cannot be made).
pub data Output : Type 0 where
  unset stdout lex_yy_c : Output

-- The globals of main.c, with what was written to `outf` and to standard error so far.
pub record State : Type 0 where
  pub verbose : ℕ
  pub closeout : Bool
  pub outf : Output
  pub infiles : Option ℕ
  pub section : ℕ
  pub fname : List ℕ
  pub line : ℕ
  pub out : List ℕ
  pub err : List ℕ

-- The file-scope initialisers.
abbrev start : State
start = record {
  verbose = 0;
  closeout = true;
  outf = unset;
  infiles = none;
  section = 0;
  fname = [];
  line = 1;
  out = [];
  err = [];
}

-- `buffer[k]` of a C string, its NUL included.
abbrev at : List ℕ → ℕ → ℕ
at buffer k = get_or buffer k 0

-- `fprintf(stderr, "%s\n", text)`.
log : List ℕ → State → State
log text s = record s { err = s.err ++ text ++ 10 ∷ [] }

-- What follows the leading white space decides between two empty branches.
parse_definitions : State → Run State
unfolding log
parse_definitions s = done (log (codes "parse_definitions") s)

parse_rules : State → Run State
unfolding log
parse_rules s = done (log (codes "parse_rules") s)

-- `fprintf` to a null pointer is undefined.
parse_subroutines : List ℕ → State → Run State
unfolding log
parse_subroutines buffer s = elim s.outf [
  | unset ↦ undefined
  | stdout ↦ done (record (log (codes "parse_subroutines") s) { out = s.out ++ buffer })
  | lex_yy_c ↦ done (record (log (codes "parse_subroutines") s) { out = s.out ++ buffer })
]

-- `parsesec[section](fp, buffer)`: the array has three elements.
parsesec : List ℕ → State → Run State
unfolding parse_definitions parse_rules parse_subroutines
parsesec buffer s =
    if s.section == 0
    then parse_definitions s
    else if s.section == 1
    then parse_rules s
    else if s.section == 2
    then parse_subroutines buffer s
    else undefined

-- `fprintf(stderr, "Usage: %s ...\n", argv[0])`.
usage : List ℕ → State → State
usage argv0 s = record s {
  err = s.err ++ codes "Usage: " ++ argv0 ++ codes " [-h] [-t] [-n|-v] [file ...]" ++ 10 ∷ [];
}

-- The options: `inl` is the return of 0 behind the usage message.
options_loop : List (ℕ × List ℕ) → List ℕ → State → State ⊎ State
unfolding usage
options_loop [] argv0 s = inr s
options_loop ((c, arg) ∷ options) argv0 s =
    let rest = options_loop options argv0 (
      if c == 116
      then record s { outf = stdout; closeout = false }
      else if c == 110
      then record s { verbose = 0 }
      else record s { verbose = 1 }) in
    if c == 116
    then rest
    else if c == 110
    then rest
    else if c == 118
    then rest
    else inl (usage argv0 s)

-- `release`, which runs at every exit: `fclose` of a null pointer is undefined.
release : State → Run State
release s = if s.closeout then elim s.outf [ unset ↦ undefined | _ ↦ done s ] else done s

module _ (isspace : ℕ → Bool) where
  -- A line `%%` with white space behind it.
  pub is_separator : List ℕ → Bool
  is_separator buffer = at buffer 0 == 37 && (at buffer 1 == 37 && isspace (at buffer 2))

  -- The body of the loop of `parse`.
  pub parse_line : List ℕ → State → Run State
  unfolding is_separator log
  parse_line buffer s =
      let s' = log buffer (record s { line = s.line + 1 }) in
      if leb s.section 2 && is_separator buffer
      then done (record s' { section = s.section + 1 })
      else parsesec buffer s'

  -- `parse`, on the lines that `getline` reads of the stream.
  pub parse : List (List ℕ) → State → Run State
  parse [] s = done s
  parse (buffer ∷ buffers) s = parse_line buffer s >>= λ s'. parse buffers s'

configure : Getopt → List (List ℕ) → State → State ⊎ State
unfolding options_loop
configure getopt argv s =
    let scan = getopt (codes "htnv") argv in
    elim (options_loop scan.options (get_or argv 0 []) s) [
      | inl s' ↦ inl s'
      | inr s' ↦
          inr (if length argv == scan.optind then s' else record s' { infiles = some scan.optind })
    ]

-- `if (!outf) outf = fopen("lex.yy.c", "w")`; `creates` is whether that succeeds.
open_output : Bool → State → State
open_output creates s = elim s.outf [
  | unset ↦ if creates then record s { outf = lex_yy_c } else s
  | _ ↦ s
]

-- The program over the streams that `fopen` gives: their lines with `parse`, or their bytes with the
-- loop of Lex/Stream. The first reading of standard input takes all of it, and leaves `nothing`.
-- What `perror` adds to standard error is left out.
module _ {S : Type 0} (parse_file : S → State → Run State) (nothing : S)
    (fopen : List ℕ → Option S) where
  -- The loop over the operands: `false` is the return of 1.
  pub files_loop : S → List (List ℕ) → State → Run (Bool × State)
  files_loop stdin [] s = done (true, s)
  files_loop stdin (name ∷ names) s =
      if same name (codes "-")
      then (parse_file stdin (record s { fname = codes "<stdin>" }) >>= λ s'.
          files_loop nothing names s')
      else elim (fopen name) [
        | none ↦ done (false, record s { err = s.err ++ codes "Failed to open file " ++ name })
        | some file ↦
            parse_file file (record s { fname = name }) >>= λ s'. files_loop stdin names s'
      ]

  -- The operands from `infiles` on, or standard input.
  read_inputs : S → List (List ℕ) → State → Run (Bool × State)
  unfolding files_loop
  read_inputs stdin argv s = elim s.infiles [
    | none ↦ parse_file stdin (record s { fname = codes "<stdin>" }) >>= λ s'. done (true, s')
    | some i ↦ files_loop stdin (drop i argv) s
  ]

  -- `main` up to its return, then `release`.
  pub main : Getopt → Bool → S → List (List ℕ) → State → Run (Bool × State)
  unfolding configure open_output read_inputs release
  main getopt creates stdin argv s = elim (configure getopt argv s) [
    | inl s₀ ↦ release s₀ >>= λ s'. done (false, s')
    | inr s₁ ↦ read_inputs stdin argv (open_output creates s₁) >>= λ (ok, s₂).
        release s₂ >>= λ s'. done (ok, s')
  ]
