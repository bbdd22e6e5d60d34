-- ===== src/Lex/Stream/Main.antt =====
-- The program over bytes against the program over lines.
use ganos.Base.{
  drop, ℕ, suc, ◌+◌, ◌*◌, ◌^◌, ◌<◌, ◌≡◌, refl, sym, ap, ◌∙◌, arith, List, [], ◌∷◌, ◌++◌, Bool,
  Bool-cases, inl, inr, ◌⊎◌, true, false, Option, none, some, length, All, Getopt, same, codes,
}
use ganos.Base.Run.{Run, done, ◌>>=◌, >>=-cong}
use ganos.Getdelim.Line.{no_block}
use ganos.Stdio.{Fgets, IsFgets}
use ganos.Lex.{State, parse, files_loop, main, configure, open_output, read_inputs, release}
use ganos.Lex.Stream.{parse_fp}
use ganos.Lex.Stream.Lines.{split_lines, IsByte, parse_stream-split_lines}

abbrev pub lines_if_any : Option (List ℕ) → Option (List (List ℕ))
lines_if_any none = none
lines_if_any (some stream) = some (split_lines stream)

Option-cases : {A : Type 0} (o : Option A) → (o ≡ none) ⊎ ((a : A) × (o ≡ some a))
Option-cases none = inl refl
Option-cases (some a) = inr (a, refl)

elim-cong :
    {A B : Type 0} (o : A ⊎ A) (b f g : A → B)
    → ((a : A) → f a ≡ g a)
    → elim o as (λ _. B) [ inl a ↦ b a | inr a ↦ f a ]
      ≡ elim o as (λ _. B) [ inl a ↦ b a | inr a ↦ g a ]
elim-cong (inl a) b f g h = refl
elim-cong (inr a) b f g h = h a

-- A stream that the program reads to its end: no NULs, and less than the fuel and the `int` allow.
pub record IsText (fuel : ℕ) (stream : List ℕ) : Type 0 where
  pub bytes : All IsByte stream
  pub fuelled : length stream < fuel
  pub small : 12 + 12 * suc (length stream) < 2 ^ 31

-- One operand of the loop.
module _ {S : Type 0} (parse_file : S → State → Run State) (nothing : S)
    (fopen : List ℕ → Option S) where
  files_loop-dash :
      (name : List ℕ) (names : List (List ℕ)) (stdin : S) (s : State)
      → same name (codes "-") ≡ true
      → files_loop parse_file nothing fopen stdin (name ∷ names) s ≡ (
          parse_file stdin (record s { fname = codes "<stdin>" }) >>= λ s'.
          files_loop parse_file nothing fopen nothing names s')
  unfolding files_loop
  files_loop-dash name names stdin s dash = rw dash refl

  files_loop-missing :
      (name : List ℕ) (names : List (List ℕ)) (stdin : S) (s : State)
      → same name (codes "-") ≡ false
      → fopen name ≡ none
      → files_loop parse_file nothing fopen stdin (name ∷ names) s
        ≡ done (false, record s { err = s.err ++ codes "Failed to open file " ++ name })
  unfolding files_loop
  files_loop-missing name names stdin s named missing = rw (named, missing) refl

  pub files_loop-opens :
      (name : List ℕ) (names : List (List ℕ)) (file stdin : S) (s : State)
      → same name (codes "-") ≡ false
      → fopen name ≡ some file
      → files_loop parse_file nothing fopen stdin (name ∷ names) s ≡ (
          parse_file file (record s { fname = name }) >>= λ s'.
          files_loop parse_file nothing fopen stdin names s')
  unfolding files_loop
  files_loop-opens name names file stdin s named opens = rw (named, opens) refl

module _ (isspace : ℕ → Bool) (fgets : Fgets) (alloc : ℕ → Bool) (is : IsFgets fgets)
    (enough : (k : ℕ) → alloc k ≡ true) (fuel : ℕ) where
  parse_fp-split_lines :
      (stream : List ℕ) (s : State)
      → IsText fuel stream
      → parse_fp isspace fgets alloc fuel stream s ≡ parse isspace (split_lines stream) s
  unfolding parse_fp
  parse_fp-split_lines stream s text =
      parse_stream-split_lines isspace fgets alloc (λ k. 0) fuel is enough fuel stream
        (record { line = none; n = 0 }) (λ k. 0) 12 s (no_block 0) text.bytes text.fuelled
        text.fuelled text.small

  read-split_lines :
      {A : Type 0} (stream : List ℕ) (s : State) {f g : State → Run A}
      → IsText fuel stream
      → ((s' : State) → f s' ≡ g s')
      → (parse_fp isspace fgets alloc fuel stream s >>= f)
        ≡ (parse isspace (split_lines stream) s >>= g)
  read-split_lines stream s {f} text later =
      ap (λ r. r >>= f) (parse_fp-split_lines stream s text)
      ∙ >>=-cong (parse isspace (split_lines stream) s) later

  empty-IsText : {stream : List ℕ} → IsText fuel stream → IsText fuel []
  empty-IsText text = record {
    bytes = record {};
    fuelled = omega (arith, text.fuelled);
    small = omega arith;
  }

  module _ (fopen : List ℕ → Option (List ℕ))
      (texts : (name stream : List ℕ) → fopen name ≡ some stream → IsText fuel stream) where
    files_loop-split_lines :
        (names : List (List ℕ)) (stdin : List ℕ) (s : State)
        → IsText fuel stdin
        → files_loop (parse_fp isspace fgets alloc fuel) [] fopen stdin names s
          ≡ files_loop
              (parse isspace)
              []
              (λ name. lines_if_any (fopen name))
              (split_lines stdin)
              names
              s
    unfolding split_lines
    files_loop-split_lines [] stdin s text = unfold files_loop in refl
    files_loop-split_lines (name ∷ names) stdin s text =
        let bytes = λ (name : List ℕ). fopen name in
        let lines = λ (name : List ℕ). lines_if_any (fopen name) in
        elim (Bool-cases (same name (codes "-"))) [
          | inl dash ↦
              files_loop-dash (parse_fp isspace fgets alloc fuel) [] bytes name names stdin s dash
              ∙ read-split_lines stdin (record s { fname = codes "<stdin>" }) text
                  (λ s'. files_loop-split_lines names [] s' (empty-IsText text))
              ∙ sym (files_loop-dash (parse isspace) [] lines name names (split_lines stdin) s dash)
          | inr named ↦ elim (Option-cases (fopen name)) [
            | inl missing ↦
                files_loop-missing (parse_fp isspace fgets alloc fuel) [] bytes name names stdin s
                  named missing
                ∙ sym (
                    files_loop-missing (parse isspace) [] lines name names (split_lines stdin) s
                      named (ap lines_if_any missing))
            | inr (stream, opens) ↦
                files_loop-opens (parse_fp isspace fgets alloc fuel) [] bytes name names stream
                  stdin s named opens
                ∙ read-split_lines stream (record s { fname = name }) (texts name stream opens)
                    (λ s'. files_loop-split_lines names stdin s' text)
                ∙ sym (
                    files_loop-opens (parse isspace) [] lines name names (split_lines stream)
                      (split_lines stdin) s named (ap lines_if_any opens))
          ]
        ]

    read_inputs-split_lines :
        (stdin : List ℕ) (argv : List (List ℕ)) (s : State)
        → IsText fuel stdin
        → read_inputs (parse_fp isspace fgets alloc fuel) [] fopen stdin argv s
          ≡ read_inputs
              (parse isspace)
              []
              (λ name. lines_if_any (fopen name))
              (split_lines stdin)
              argv
              s
    unfolding read_inputs
    read_inputs-split_lines stdin argv s text = elim (Option-cases s.infiles) [
      | inl standard ↦ rw standard (
          read-split_lines stdin (record s { infiles = none; fname = codes "<stdin>" }) text
            (λ s'. refl))
      | inr (i, operands) ↦
          rw operands
            (files_loop-split_lines (drop i argv) stdin (record s { infiles = some i }) text)
    ]

    -- If `fgets` does what its documentation promises and every allocation succeeds, then `main`,
    -- with its own `getline` on the bytes of standard input and of the files, does what it does on
    -- their lines, whatever the options, the operands and the files, undefined behaviour and files
    -- that do not open included, as long as the streams have no NULs and stay below the fuel and
    -- 2^31 bytes for 12 times their length and a few more.
    pub main-split_lines :
        (getopt : Getopt) (creates : Bool) (stdin : List ℕ) (argv : List (List ℕ)) (s : State)
        → IsText fuel stdin
        → main (parse_fp isspace fgets alloc fuel) [] fopen getopt creates stdin argv s
          ≡ main
              (parse isspace)
              []
              (λ name. lines_if_any (fopen name))
              getopt
              creates
              (split_lines stdin)
              argv
              s
    unfolding main
    main-split_lines getopt creates stdin argv s text =
        elim-cong (configure getopt argv s) _ _ _ (λ s₁.
          ap (λ (r : Run (Bool × State)). r >>= λ (ok, s₂). release s₂ >>= λ s'. done (ok, s'))
            (read_inputs-split_lines stdin argv (open_output creates s₁) text))
