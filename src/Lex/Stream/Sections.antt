-- ===== src/Lex/Stream/Sections.antt =====
-- A lex file from its bytes to the output of the program.
use ganos.Base.{
  zero, ℕ, suc, ◌+◌, ◌<◌, ◌≡◌, ◌≢◌, refl, sym, ap, ◌∙◌, arith, List, [], ◌∷◌, ◌++◌, append_assoc,
  Bool, inl, inr, ◌⊎◌, true, false, Option, none, some, length, drop, All, Getopt, same, codes,
}
use ganos.Base.Run.{Run, done, ◌>>=◌}
use ganos.Stdio.{Fgets, IsFgets}
use ganos.Stdio.Text.{IsPlain}
use ganos.Lex.{
  State, unset, stdout, start, parse, is_separator, files_loop, main, configure, options_loop,
  open_output, read_inputs, release,
}
use ganos.Lex.Sections.{concat, Parsed, parse_sections, opened_cases}
use ganos.Lex.Stream.{parse_fp}
use ganos.Lex.Stream.Lines.{split_lines, split_lines-line}
use ganos.Lex.Stream.Main.{IsText, lines_if_any, files_loop-opens, main-split_lines}

-- A line with the line feed that ends it.
abbrev pub IsLine : List ℕ → Type 0
IsLine b = (pre : List ℕ) × (b ≡ pre ++ 10 ∷ []) × All IsPlain pre

split_lines-concat : (bs : List (List ℕ)) → All IsLine bs → split_lines (concat bs) ≡ bs
unfolding split_lines
split_lines-concat [] h = refl
split_lines-concat (b ∷ bs) ((pre, e, plain), h) =
    ap (λ b. split_lines (b ++ concat bs)) e
    ∙ ap split_lines (append_assoc pre (10 ∷ []) (concat bs))
    ∙ split_lines-line pre (concat bs) plain
    ∙ ap (λ bs. (pre ++ 10 ∷ []) ∷ bs) (split_lines-concat bs h)
    ∙ ap (λ b. b ∷ bs) (sym e)

drop-inside : (i : ℕ) (xs : List (List ℕ)) (x : List ℕ) → drop i xs ≡ x ∷ [] → i < length xs
drop-inside zero [] x h = cc
drop-inside zero (y ∷ xs) x h = omega arith
drop-inside (suc i) [] x h = cc
drop-inside (suc i) (y ∷ xs) x h = omega (arith, drop-inside i xs x h)

release_opened : (s : State) → s.outf ≢ unset → release s ≡ done s
unfolding release
release_opened s opened = elim (opened_cases s.outf opened) [
  | inl h ↦ ground (arith, h)
  | inr h ↦ ground (arith, h)
]

-- The state in which the file is read: `-t`, or lex.yy.c that can be made.
abbrev pub Started : Getopt → Bool → List (List ℕ) → ℕ → Type 0
Started getopt creates argv i =
    (getopt (codes "htnv") argv ≡ record { options = (116, []) ∷ []; optind = i })
    ⊎ ((getopt (codes "htnv") argv ≡ record { options = []; optind = i }) × (creates ≡ true))

record Ready (getopt : Getopt) (creates : Bool) (argv : List (List ℕ)) (i : ℕ) : Type 0 where
  state : State
  configured : configure getopt argv start ≡ inr state
  infiles_is : (open_output creates state).infiles ≡ some i
  opened : (open_output creates state).outf ≢ unset
  fresh : (open_output creates state).section ≡ 0
  first_line : (open_output creates state).line ≡ 1
  silent : (open_output creates state).out ≡ []

Started-Ready :
    (getopt : Getopt) (creates : Bool) (argv : List (List ℕ)) (i : ℕ)
    → i < length argv
    → Started getopt creates argv i
    → Ready getopt creates argv i
unfolding configure options_loop open_output
Started-Ready getopt creates argv i inside (inl h) = record {
  state = record start { outf = stdout; closeout = false; infiles = some i };
  configured = ground (arith, h, inside);
  infiles_is = refl;
  opened = λ e. cc;
  fresh = refl;
  first_line = refl;
  silent = refl;
}
Started-Ready getopt creates argv i inside (inr (h, made)) = record {
  state = record start { infiles = some i };
  configured = ground (arith, h, inside);
  infiles_is = rw made refl;
  opened = rw made (λ e. cc);
  fresh = rw made refl;
  first_line = rw made refl;
  silent = rw made refl;
}

module _ {S : Type 0} (parse_file : S → State → Run State) (nothing : S)
    (fopen : List ℕ → Option S) where
  main-configured :
      (getopt : Getopt) (creates : Bool) (stdin : S) (argv : List (List ℕ)) (s s₁ : State)
      → configure getopt argv s ≡ inr s₁
      → main parse_file nothing fopen getopt creates stdin argv s ≡ (
          read_inputs parse_file nothing fopen stdin argv (open_output creates s₁) >>= λ (ok, s₂).
          release s₂ >>= λ s'. done (ok, s'))
  unfolding main
  main-configured getopt creates stdin argv s s₁ h =
      ap
        (λ (c : State ⊎ State). elim c as (λ _. Run (Bool × State)) [
          | inl s₀ ↦ release s₀ >>= λ s'. done (false, s')
          | inr s₁ ↦
              read_inputs parse_file nothing fopen stdin argv (open_output creates s₁)
              >>= λ (ok, s₂). release s₂ >>= λ s'. done (ok, s')
        ])
        h

  read_inputs-operand :
      (stdin file : S) (argv : List (List ℕ)) (i : ℕ) (name : List ℕ) (s s' : State)
      → s.infiles ≡ some i
      → drop i argv ≡ name ∷ []
      → same name (codes "-") ≡ false
      → fopen name ≡ some file
      → parse_file file (record s { fname = name }) ≡ done s'
      → read_inputs parse_file nothing fopen stdin argv s ≡ done (true, s')
  unfolding read_inputs files_loop
  read_inputs-operand stdin file argv i name s s' from operand named opens runs =
      ap
        (λ (o : Option ℕ). elim o as (λ _. Run (Bool × State)) [
          | none ↦ parse_file stdin (record s { fname = codes "<stdin>" }) >>= λ s'. done (true, s')
          | some i ↦ files_loop parse_file nothing fopen stdin (drop i argv) s
        ])
        from
      ∙ ap (λ names. files_loop parse_file nothing fopen stdin names s) operand
      ∙ files_loop-opens parse_file nothing fopen name [] file stdin s named opens
      ∙ ap (λ r. r >>= λ s'. done (true, s')) runs

module _ (isspace : ℕ → Bool) where
  -- The three groups of lines, with the two separators between them.
  pub record IsLexFile (definitions rules subs : List (List ℕ)) (first second : List ℕ)
      : Type 0 where
    pub definitions_plain : All (λ b. is_separator isspace b ≡ false) definitions
    pub rules_plain : All (λ b. is_separator isspace b ≡ false) rules
    pub subs_plain : All (λ b. is_separator isspace b ≡ false) subs
    pub first_separates : is_separator isspace first ≡ true
    pub second_separates : is_separator isspace second ≡ true
    pub lines : All IsLine (definitions ++ first ∷ (rules ++ second ∷ subs))

  -- On lines: the one operand is read and its third group is written.
  main-opened :
      (fopen : List ℕ → Option (List (List ℕ))) (getopt : Getopt) (creates : Bool)
      (stdin argv : List (List ℕ)) (i : ℕ) (name : List ℕ) (bs : List (List ℕ)) (out : List ℕ)
      → (r : Ready getopt creates argv i) → drop i argv ≡ name ∷ []
      → same name (codes "-") ≡ false
      → fopen name ≡ some bs
      → ((s : State)
          → s.section ≡ 0
          → s.outf ≢ unset
          → (s' : State) × (parse isspace bs s ≡ done s') × Parsed s 2 out (length bs) s')
      → (s' : State) × (main (parse isspace) [] fopen getopt creates stdin argv start
          ≡ done (true, s'))
        × (s'.out ≡ out)
        × (s'.line ≡ 1 + length bs)
  main-opened fopen getopt creates stdin argv i name bs out r operand named opens parses =
      let s = record (open_output creates r.state) { fname = name } in
      let (s', runs, p) = parses s r.fresh r.opened in
      (
        s',
        main-configured (parse isspace) [] fopen getopt creates stdin argv start r.state
              r.configured
            ∙ ap (λ (r : Run (Bool × State)). r >>= λ (ok, s₂). release s₂ >>= λ s'. done (ok, s'))
                (read_inputs-operand (parse isspace) [] fopen stdin bs argv i name
                  (open_output creates r.state) s' r.infiles_is operand named opens runs)
            ∙ ap (λ r. r >>= λ s'. done (true, s'))
                (release_opened s' (λ e. r.opened (sym p.outf_is ∙ e))),
        p.out_is ∙ ap (λ xs. xs ++ out) r.silent,
        p.line_is ∙ ap (λ n. n + length bs) r.first_line,
      )

  module _ (fgets : Fgets) (alloc : ℕ → Bool) (is : IsFgets fgets)
      (enough : (k : ℕ) → alloc k ≡ true) (fuel : ℕ) (fopen : List ℕ → Option (List ℕ))
      (texts : (name stream : List ℕ) → fopen name ≡ some stream → IsText fuel stream) where
    -- If `fgets` does what its documentation promises, every allocation succeeds and the streams are
    -- texts for the fuel, then `lex -t FILE`, or `lex FILE` where lex.yy.c can be made, returns 0 for
    -- a file of three groups of lines, of which none is a separator, with a separator behind each of
    -- the first two: it writes exactly the bytes of the third group, and counts every line.
    pub main-sections :
        (getopt : Getopt) (creates : Bool) (stdin : List ℕ) (argv : List (List ℕ)) (i : ℕ)
        (name : List ℕ) (definitions rules subs : List (List ℕ)) (first second : List ℕ)
        → IsText fuel stdin
        → Started getopt creates argv i
        → drop i argv ≡ name ∷ []
        → same name (codes "-") ≡ false
        → IsLexFile definitions rules subs first second
        → fopen name ≡ some (concat (definitions ++ first ∷ (rules ++ second ∷ subs)))
        → (s' : State) × (main
              (parse_fp isspace fgets alloc fuel)
              []
              fopen
              getopt
              creates
              stdin
              argv
              start
            ≡ done (true, s'))
          × (s'.out ≡ concat subs)
          × (s'.line ≡ 1 + length (definitions ++ first ∷ (rules ++ second ∷ subs)))
    main-sections getopt creates stdin argv i name definitions rules subs first second text started
          operand named file opens =
        let bs = definitions ++ first ∷ (rules ++ second ∷ subs) in
        let (s', runs, out, line) =
          main-opened (λ name. lines_if_any (fopen name)) getopt creates (split_lines stdin) argv i
            name bs (concat subs)
            (Started-Ready getopt creates argv i (drop-inside i argv name operand) started) operand
            named (ap lines_if_any opens ∙ ap some (split_lines-concat bs file.lines))
            (λ s fresh opened.
              parse_sections isspace definitions rules subs first second s file.definitions_plain
                file.rules_plain file.subs_plain file.first_separates file.second_separates fresh
                opened) in
        (
          s',
          main-split_lines isspace fgets alloc is enough fuel fopen texts getopt creates stdin argv
                start text
              ∙ runs,
          out,
          line,
        )
