-- ===== src/Cat/Operands.antt =====
-- What `cat` prints of its operands.
use ganos.Base.{
  ap₂, ℕ, ◌≡◌, refl, sym, ap, ◌∙◌, List, [], ◌∷◌, ◌++◌, append_assoc, append-nil, false, Option,
  none, some, codes, same, All,
}
use ganos.Cat.{State, cat_file, cat_stdin, cat_operand, operands_loop}

module _ (fopen : List ℕ → Option (List ℕ)) where
  -- The contents of the files that open, one after the other.
  pub contents : List (List ℕ) → List ℕ
  contents [] = []
  contents (name ∷ names) = elim (fopen name) [
    | none ↦ contents names
    | some content ↦ content ++ contents names
  ]

  unfoldable pub missing : List (List ℕ) → List (List ℕ)
  missing [] = []
  missing (name ∷ names) = elim (fopen name) [
    | none ↦ name ∷ missing names
    | some content ↦ missing names
  ]

  -- `rval` for the names that did not open.
  unfoldable pub status : ℕ → List (List ℕ) → ℕ
  status rval [] = rval
  status rval (name ∷ names) = 1

  abbrev pub AreFiles : List (List ℕ) → Type 0
  AreFiles names = All (λ name. same name (codes "-") ≡ false) names

  abbrev after : List (List ℕ) → State → State
  after names s = record s {
    rval = status s.rval (missing names);
    printed = s.printed ++ contents names;
    errors = s.errors ++ missing names;
  }

  pub cat_file_lem :
      (cs : List ℕ) (s : State) → cat_file cs s ≡ record s { printed = s.printed ++ cs }
  unfolding cat_file
  cat_file_lem [] s = ap (λ xs. record s { printed = xs }) (sym (append-nil s.printed))
  cat_file_lem (c ∷ cs) s =
      cat_file_lem cs (record s { printed = s.printed ++ c ∷ [] })
      ∙ ap (λ xs. record s { printed = xs }) (append_assoc s.printed (c ∷ []) cs)

  pub status-one : (names : List (List ℕ)) → status 1 names ≡ 1
  unfolding status
  status-one [] = refl
  status-one (name ∷ names) = refl

  -- The first operand is opened or not, and the others do as they do.
  operand_cases :
      (content : Option (List ℕ)) (name : List ℕ) (names : List (List ℕ)) (s : State)
      → ((s' : State) → operands_loop fopen names s' ≡ after names s')
      → operands_loop fopen names (elim content [
        | none ↦ record s { errors = s.errors ++ name ∷ []; rval = 1 }
        | some c ↦ cat_file c s
      ])
        ≡ record s {
          rval =
              status s.rval (elim content [ none ↦ name ∷ missing names | some c ↦ missing names ]);
          printed =
              s.printed ++ elim content [ none ↦ contents names | some c ↦ c ++ contents names ];
          errors =
              s.errors ++ elim content [ none ↦ name ∷ missing names | some c ↦ missing names ];
        }
  unfolding status
  operand_cases none name names s ih =
      ih (record s { errors = s.errors ++ name ∷ []; rval = 1 })
      ∙ ap₂ (λ r es. record s { rval = r; printed = s.printed ++ contents names; errors = es })
          (status-one (missing names)) (append_assoc s.errors (name ∷ []) (missing names))
  operand_cases (some c) name names s ih =
      ap (operands_loop fopen names) (cat_file_lem c s)
      ∙ ih (record s { printed = s.printed ++ c })
      ∙ ap
          (λ xs. record s {
            rval = status s.rval (missing names);
            printed = xs;
            errors = s.errors ++ missing names;
          })
          (append_assoc s.printed c (contents names))

  files_loop_lem :
      (names : List (List ℕ)) (s : State)
      → AreFiles names
      → operands_loop fopen names s ≡ after names s
  unfolding operands_loop cat_operand contents missing status
  files_loop_lem [] s files =
      ap₂ (λ xs es. record s { printed = xs; errors = es }) (sym (append-nil s.printed))
        (sym (append-nil s.errors))
  files_loop_lem (name ∷ names) s files =
      rw files.0 (operand_cases (fopen name) name names s (λ s'. files_loop_lem names s' files.1))

  operands_loop-append :
      (xs ys : List (List ℕ)) (s : State)
      → operands_loop fopen (xs ++ ys) s ≡ operands_loop fopen ys (operands_loop fopen xs s)
  unfolding operands_loop
  operands_loop-append [] ys s = refl
  operands_loop-append (x ∷ xs) ys s = operands_loop-append xs ys (cat_operand fopen x s)

  dash_lem :
      (back : List (List ℕ)) (s : State)
      → operands_loop fopen (codes "-" ∷ back) s
        ≡ operands_loop fopen back (record s { printed = s.printed ++ s.stdin; stdin = [] })
  unfolding operands_loop cat_operand cat_stdin
  dash_lem back s =
      ap (λ t. operands_loop fopen back (record t { stdin = [] })) (cat_file_lem s.stdin s)

  status-append : (xs ys : List (List ℕ)) → status (status 0 xs) ys ≡ status 0 (xs ++ ys)
  unfolding status
  status-append [] ys = refl
  status-append (x ∷ xs) ys = status-one ys

  -- For operands with one `-` among them, `cat` prints the files in front of it that open, then
  -- standard input, then the files behind it, in order; it names the ones that do not open on
  -- standard error in order, and its status is 1 exactly if there is one.
  pub operands_loop_lem :
      (front back : List (List ℕ)) (stdin : List ℕ)
      → AreFiles front
      → AreFiles back
      → operands_loop fopen
          (front ++ codes "-" ∷ back)
          (record { rval = 0; printed = []; errors = []; stdin = stdin })
        ≡ record {
          rval = status 0 (missing front ++ missing back);
          printed = contents front ++ (stdin ++ contents back);
          errors = missing front ++ missing back;
          stdin = [];
        }
  operands_loop_lem front back stdin hf hb =
      let fresh : State = record { rval = 0; printed = []; errors = []; stdin = stdin } in
      operands_loop-append front (codes "-" ∷ back) fresh
      ∙ ap (operands_loop fopen (codes "-" ∷ back)) (files_loop_lem front fresh hf)
      ∙ dash_lem back (after front fresh)
      ∙ files_loop_lem back
          (record (after front fresh) { printed = contents front ++ stdin; stdin = [] }) hb
      ∙ ap₂
          (λ r xs. record {
            rval = r;
            printed = xs;
            errors = missing front ++ missing back;
            stdin = [];
          })
          (status-append (missing front) (missing back))
          (append_assoc (contents front) stdin (contents back))
