-- ===== src/Amake/Chain/Operands.antt =====
-- The loop of `configure`: the list of the operands of `-f`, whatever allocations fail.
use ganos.Base.{
  ℕ, ◌+◌, ◌≤◌, ◌≡◌, ◌≢◌, refl, sym, ap, ◌∙◌, arith, List, [], ◌∷◌, ◌++◌, append_assoc, append-nil,
  ◌==◌, ◌||◌, if◌then◌else◌, Bool, true, false, Bool-cases, ◌⊎◌, inl, inr, Option, none, All,
  length, length-append,
}
use ganos.Base.Run.{Run, done, ◌>>=◌}
use ganos.Amake.{to, State, Configured, go_on, fail, add_path, option, configure}
use ganos.Amake.Chain.{Cells, last_of, values}
use ganos.Amake.Chain.Configure.{
  holding, Distinct, IsList, Taken-later, IsList-snoc, add_path-Added, last_of-snoc, values-snoc,
}

-- The operands of `-f`, in order.
unfoldable pub operands : List (ℕ × List ℕ) → List (List ℕ)
operands [] = []
operands ((c, optarg) ∷ options) = if c == 102 then optarg ∷ operands options else operands options

-- No request for help and no unknown option.
abbrev pub IsAccepted : ℕ × List ℕ → Type 0
IsAccepted o = (o.0 ≢ 104) × (o.0 ≢ 63)

module _ (malloc : ℕ → Option ℕ) (distinct : Distinct malloc) where
  -- How `configure` leaves a list: in order, and if it succeeds with the operands at its end. It
  -- succeeds if every option is accepted and no call of `malloc` fails.
  pub record Built (options : List (ℕ × List ℕ)) (cells : Cells) (out : List ℕ)
      (r : Run (Bool × State)) : Type 0 where
    pub ok : Bool
    pub made : Cells
    pub calls : ℕ
    pub runs : r ≡ done (ok, holding made calls out)
    pub is_list : IsList malloc distinct made calls
    pub size : length made ≤ length cells + length options
    pub names : ok ≡ true → values made ≡ values cells ++ operands options
    pub succeeds : All IsAccepted options → ((k : ℕ) → malloc k ≢ none) → ok ≡ true

  abbrev next : List (ℕ × List ℕ) → Configured → Run (Bool × State)
  next options r = elim r [
    | fail s' ↦ done (false, s')
    | go_on pend' s' ↦ configure malloc options pend' s'
  ]

  -- One option in front of others: the run, and what the others make of it.
  module _ (c : ℕ) (optarg : List ℕ) (options : List (ℕ × List ℕ)) (cells : Cells) (n : ℕ)
      (out : List ℕ) (h : IsList malloc distinct cells n) where
    abbrev Goal : Type 0
    Goal =
        Built ((c, optarg) ∷ options) cells out
          (configure malloc ((c, optarg) ∷ options) (last_of cells) (holding cells n out))

    run_option :
        (r : Run Configured)
        → option malloc c optarg (last_of cells) (holding cells n out) ≡ r
        → configure malloc ((c, optarg) ∷ options) (last_of cells) (holding cells n out)
          ≡ (r >>= next options)
    unfolding configure
    run_option r e = ap (λ o. o >>= next options) e

    help-Built : (c == 102) ≡ false → (c == 104 || c == 63) ≡ true → Goal
    help-Built other help = record {
      ok = false;
      made = cells;
      calls = n;
      runs =
          run_option (done (fail (holding cells n out)))
            (unfold option in ground (arith, other, help));
      is_list = h;
      size = omega arith;
      names = λ e. cc;
      succeeds = λ all _. ground (arith, all.0.0, all.0.1, help);
    }

    other-Built :
        (c == 102) ≡ false
        → (c == 104 || c == 63) ≡ false
        → Built options cells out (configure malloc options (last_of cells) (holding cells n out))
        → Goal
    other-Built other known b = record {
      ok = b.ok;
      made = b.made;
      calls = b.calls;
      runs =
          run_option (done (go_on (last_of cells) (holding cells n out)))
            (unfold option in ground (arith, other, known))
          ∙ b.runs;
      is_list = b.is_list;
      size = omega (arith, b.size);
      names = λ e. unfold operands in ground (arith, b.names e, other);
      succeeds = λ all enough. b.succeeds all.1 enough;
    }

    full-Built :
        (k : ℕ)
        → (c == 102) ≡ true
        → n ≤ k
        → (malloc n ≡ none) ⊎ (malloc (n + 1) ≡ none)
        → add_path malloc optarg (last_of cells) (holding cells n out)
          ≡ done (fail (holding cells k out))
        → Goal
    full-Built k f le full runs = record {
      ok = false;
      made = cells;
      calls = k;
      runs =
          run_option (done (fail (holding cells k out))) (unfold option in ground (arith, f, runs));
      is_list = record {
        nodup = h.nodup;
        taken = Taken-later malloc distinct cells n k le h.taken;
      };
      size = omega arith;
      names = λ e. cc;
      succeeds = λ _ enough. absurd (elim full [ inl e ↦ enough n e | inr e ↦ enough (n + 1) e ]);
    }

    added-Built :
        (p : ℕ)
        → (c == 102) ≡ true
        → add_path malloc optarg (last_of cells) (holding cells n out)
          ≡ done (go_on (to p) (holding (cells ++ (p, optarg) ∷ []) (n + 2) out))
        → Built options (cells ++ (p, optarg) ∷ []) out (
            configure malloc options
              (last_of (cells ++ (p, optarg) ∷ []))
              (holding (cells ++ (p, optarg) ∷ []) (n + 2) out))
        → Goal
    added-Built p f runs b = record {
      ok = b.ok;
      made = b.made;
      calls = b.calls;
      runs =
          run_option (done (go_on (to p) (holding (cells ++ (p, optarg) ∷ []) (n + 2) out)))
            (unfold option in ground (arith, f, runs))
          ∙ ap (λ q. configure malloc options q (holding (cells ++ (p, optarg) ∷ []) (n + 2) out))
              (sym (last_of-snoc cells p optarg))
          ∙ b.runs;
      is_list = b.is_list;
      size = omega (arith, b.size, length-append cells ((p, optarg) ∷ []));
      names = λ e.
          unfold operands in
          ground (
            arith,
            b.names e,
            f,
            values-snoc cells p optarg,
            append_assoc (values cells) (optarg ∷ []) (operands options),
          );
      succeeds = λ all enough. b.succeeds all.1 enough;
    }

  -- Whatever calls of `malloc` fail, if none hands out a block twice, `configure` returns, with a list
  -- in order: that of the structures before, and if it succeeds then with those of the operands of
  -- `-f`, in order, behind them. It succeeds if all options are accepted and no call fails.
  pub configure-Built :
      (options : List (ℕ × List ℕ)) (cells : Cells) (n : ℕ) (out : List ℕ)
      → IsList malloc distinct cells n
      → Built options cells out (configure malloc options (last_of cells) (holding cells n out))
  configure-Built [] cells n out h = record {
    ok = true;
    made = cells;
    calls = n;
    runs = unfold configure in refl;
    is_list = h;
    size = omega arith;
    names = λ _. unfold operands in sym (append-nil (values cells));
    succeeds = λ _ _. refl;
  }
  configure-Built ((c, optarg) ∷ options) cells n out h = elim (Bool-cases (c == 102)) [
    | inl f ↦ elim (add_path-Added malloc distinct cells n out optarg h) [
      | inl (k, le, full, runs) ↦ full-Built c optarg options cells n out h k f le full runs
      | inr (p, e, runs) ↦ added-Built c optarg options cells n out h p f runs (
          configure-Built options (cells ++ (p, optarg) ∷ []) (n + 2) out
            (IsList-snoc malloc distinct cells n p optarg e h))
    ]
    | inr other ↦ elim (Bool-cases (c == 104 || c == 63)) [
      | inl help ↦ help-Built c optarg options cells n out h other help
      | inr known ↦
          other-Built c optarg options cells n out h other known
            (configure-Built options cells n out h)
    ]
  ]
