-- ===== src/Cat/Main.antt =====
-- What `cat` does with any options and operands.
use ganos.Base.{
  zero, ◌<◌, suc, All, ◌≤◌, ℕ, ◌≡◌, refl, sym, ap, ap₂, ◌∙◌, arith, List, [], ◌∷◌, ◌++◌,
  append_assoc, append-nil, Bool-cases, inl, inr, ◌⊎◌, true, false, Option, none, some, codes, same,
  drop, length, Getopt, if◌then◌else◌, ◌==◌,
}
use ganos.Cat.{State, cat_stdin, cat_operand, operands_loop, options_loop, main}
use ganos.Cat.Operands.{cat_file_lem, missing, status, status-one}

abbrev dash : List ℕ
dash = codes "-"

-- The operands that are names of files.
pub files_of : List (List ℕ) → List (List ℕ)
files_of [] = []
files_of (name ∷ names) = let rest = files_of names in if same name dash then rest else name ∷ rest

-- Standard input behind the operands: the first `-` reads all of it.
pub left_of : List ℕ → List (List ℕ) → List ℕ
left_of stdin [] = stdin
left_of stdin (name ∷ names) = left_of (if same name dash then [] else stdin) names

-- The operands; without any, `cat` reads standard input as for `-`.
abbrev pub operands : List (List ℕ) → List (List ℕ)
operands [] = dash ∷ []
operands (name ∷ names) = name ∷ names

operands-end : (i : ℕ) (argv : List (List ℕ)) → i ≡ length argv → operands (drop i argv) ≡ dash ∷ []
operands-end zero [] h = refl
operands-end zero (arg ∷ argv) h = absurd (omega (arith, h))
operands-end (suc i) [] h = refl
operands-end (suc i) (arg ∷ argv) h = operands-end i argv (omega (arith, h))

operands-more :
    (i : ℕ) (argv : List (List ℕ)) → i < length argv → operands (drop i argv) ≡ drop i argv
operands-more zero [] h = absurd (omega (arith, h))
operands-more zero (arg ∷ argv) h = refl
operands-more (suc i) [] h = absurd (omega (arith, h))
operands-more (suc i) (arg ∷ argv) h = operands-more i argv (omega (arith, h))

options_loop_lem :
    (options : List (ℕ × List ℕ)) → All (λ (c, arg). c ≡ 117) options → options_loop options ≡ true
unfolding options_loop
options_loop_lem [] h = refl
options_loop_lem ((c, arg) ∷ options) h = ground (arith, h.0, options_loop_lem options h.1)

opens_or_not : (o : Option (List ℕ)) → (o ≡ none) ⊎ ((content : List ℕ) × (o ≡ some content))
opens_or_not none = inl refl
opens_or_not (some content) = inr (content, refl)

module _ (fopen : List ℕ → Option (List ℕ)) where
  -- What an operand stands for.
  unfoldable pub source : List ℕ → List ℕ → List ℕ
  source stdin name =
      if same name dash then stdin else elim (fopen name) [ none ↦ [] | some content ↦ content ]

  -- What all of them stand for, one after the other.
  unfoldable pub sources : List ℕ → List (List ℕ) → List ℕ
  sources stdin [] = []
  sources stdin (name ∷ names) =
      source stdin name ++ sources (if same name dash then [] else stdin) names

  abbrev after : List (List ℕ) → State → State
  after names s = record {
    rval = status fopen s.rval (missing fopen (files_of names));
    printed = s.printed ++ sources s.stdin names;
    errors = s.errors ++ missing fopen (files_of names);
    stdin = left_of s.stdin names;
  }

  operand_dash :
      (name : List ℕ) (names : List (List ℕ)) (s : State)
      → same name dash ≡ true
      → operands_loop fopen (name ∷ names) s
        ≡ operands_loop fopen names (record s { printed = s.printed ++ s.stdin; stdin = [] })
  unfolding operands_loop cat_operand cat_stdin
  operand_dash name names s h =
      rw h (
        ap (λ t. operands_loop fopen names (record t { stdin = [] }))
          (cat_file_lem fopen s.stdin s))

  operand_missing :
      (name : List ℕ) (names : List (List ℕ)) (s : State)
      → same name dash ≡ false
      → fopen name ≡ none
      → operands_loop fopen (name ∷ names) s
        ≡ operands_loop fopen names (record s { errors = s.errors ++ name ∷ []; rval = 1 })
  unfolding operands_loop cat_operand
  operand_missing name names s h h' = rw (h, h') refl

  operand_opens :
      (name content : List ℕ) (names : List (List ℕ)) (s : State)
      → same name dash ≡ false
      → fopen name ≡ some content
      → operands_loop fopen (name ∷ names) s
        ≡ operands_loop fopen names (record s { printed = s.printed ++ content })
  unfolding operands_loop cat_operand
  operand_opens name content names s h h' =
      rw (h, h') (ap (operands_loop fopen names) (cat_file_lem fopen content s))

  after_dash :
      (name : List ℕ) (names : List (List ℕ)) (s : State)
      → same name dash ≡ true
      → after names (record s { printed = s.printed ++ s.stdin; stdin = [] })
        ≡ after (name ∷ names) s
  unfolding sources source files_of left_of
  after_dash name names s h = rw h (
      ap (λ xs. record (after names s) { printed = xs; stdin = left_of [] names })
        (append_assoc s.printed s.stdin (sources [] names)))

  after_missing :
      (name : List ℕ) (names : List (List ℕ)) (s : State)
      → same name dash ≡ false
      → fopen name ≡ none
      → after names (record s { errors = s.errors ++ name ∷ []; rval = 1 }) ≡ after (name ∷ names) s
  unfolding sources source files_of left_of missing status
  after_missing name names s h h' =
      let es = missing fopen (files_of names) in
      rw (h, h')
        (ap₂ (λ r xs. record (after names s) { rval = r; errors = xs }) (status-one fopen es)
          (append_assoc s.errors (name ∷ []) es))

  after_opens :
      (name content : List ℕ) (names : List (List ℕ)) (s : State)
      → same name dash ≡ false
      → fopen name ≡ some content
      → after names (record s { printed = s.printed ++ content }) ≡ after (name ∷ names) s
  unfolding sources source files_of left_of missing
  after_opens name content names s h h' =
      rw (h, h')
        (ap (λ xs. record (after names s) { printed = xs })
          (append_assoc s.printed content (sources s.stdin names)))

  loop_lem : (names : List (List ℕ)) (s : State) → operands_loop fopen names s ≡ after names s
  loop_lem [] s =
      unfold operands_loop files_of missing status sources left_of in
      ap₂ (λ xs es. record s { printed = xs; errors = es }) (sym (append-nil s.printed))
        (sym (append-nil s.errors))
  loop_lem (name ∷ names) s = elim (Bool-cases (same name dash)) [
    | inl h ↦ operand_dash name names s h ∙ loop_lem names _ ∙ after_dash name names s h
    | inr h ↦ elim (opens_or_not (fopen name)) [
      | inl h' ↦
          operand_missing name names s h h' ∙ loop_lem names _ ∙ after_missing name names s h h'
      | inr (content, h') ↦
          operand_opens name content names s h h'
          ∙ loop_lem names _
          ∙ after_opens name content names s h h'
    ]
  ]

  main-stdin :
      (getopt : Getopt) (argv : List (List ℕ)) (s : State)
      → options_loop (getopt (codes "uh") argv).options ≡ true
      → ((getopt (codes "uh") argv).optind == length argv) ≡ true
      → main fopen getopt argv s ≡ operands_loop fopen (dash ∷ []) s
  unfolding main operands_loop cat_operand
  main-stdin getopt argv s h h' = rw (h, h') refl

  main-operands :
      (getopt : Getopt) (argv : List (List ℕ)) (s : State)
      → options_loop (getopt (codes "uh") argv).options ≡ true
      → ((getopt (codes "uh") argv).optind == length argv) ≡ false
      → main fopen getopt argv s
        ≡ operands_loop fopen (drop (getopt (codes "uh") argv).optind argv) s
  unfolding main
  main-operands getopt argv s h h' = rw (h, h') refl

  -- With no option but `-u`, `cat` prints what its operands stand for, in order: a file that opens
  -- its content, the first `-` standard input and any further one nothing. It names the files that
  -- do not open, in order, and its status is 1 exactly if there is one. Without operands it prints
  -- standard input.
  pub main-sources :
      (getopt : Getopt) (argv : List (List ℕ)) (stdin : List ℕ)
      → All (λ (c, arg). c ≡ 117) (getopt (codes "uh") argv).options
      → (getopt (codes "uh") argv).optind ≤ length argv
      → let names = operands (drop (getopt (codes "uh") argv).optind argv) in
        main fopen getopt argv (record { rval = 0; printed = []; errors = []; stdin = stdin })
        ≡ record {
          rval = status fopen 0 (missing fopen (files_of names));
          printed = sources stdin names;
          errors = missing fopen (files_of names);
          stdin = left_of stdin names;
        }
  main-sources getopt argv stdin known inside =
      let scan = getopt (codes "uh") argv in
      let s : State = record { rval = 0; printed = []; errors = []; stdin = stdin } in
      let accepted = options_loop_lem scan.options known in
      elim (Bool-cases (scan.optind == length argv)) [
        | inl none_left ↦
            main-stdin getopt argv s accepted none_left
            ∙ loop_lem (dash ∷ []) s
            ∙ ap (λ names. after names s)
                (sym (operands-end scan.optind argv (ground (arith, none_left))))
        | inr some_left ↦
            main-operands getopt argv s accepted some_left
            ∙ loop_lem (drop scan.optind argv) s
            ∙ ap (λ names. after names s)
                (sym (operands-more scan.optind argv (ground (arith, some_left, inside))))
      ]
