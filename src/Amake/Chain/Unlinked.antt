-- ===== src/Amake/Chain/Unlinked.antt =====
-- `main` of amake without a `-f`: it walks off the end of the list that the search has made.
use ganos.Base.{
  ℕ, zero, suc, ◌+◌, ◌≤◌, ◌≡◌, ◌≢◌, refl, ap, ap₂, ◌∙◌, arith, List, [], ◌∷◌, ◌++◌, Bool, true,
  false, Bool-cases, ◌⊎◌, inl, inr, Option, none, some, Option-cases, All, codes, Getopt,
}
use ganos.Base.Run.{done, undefined, ◌>>=◌}
use ganos.Amake.{
  unset, null, to, put, State, start, is_null, mkfiles, new_path, parse_file, find_makefile,
  read_files, cleanup, configure, run, main,
}
use ganos.Amake.Chain.{Cells, str, heap_of, values}
use ganos.Amake.Chain.Configure.{holding, Distinct, new_path-both}
use ganos.Amake.Chain.Operands.{operands, IsAccepted}
use ganos.Amake.Chain.Exit.{read_files_step, cleanup_step}
use ganos.Amake.Chain.Main.{exit, main-run, built}

values-nil : (cells : Cells) → values cells ≡ [] → cells ≡ []
unfolding values
values-nil [] e = refl
values-nil ((p, name) ∷ cells) e = cc

cleanup-unset : (fuel : ℕ) (s : State) → cleanup (suc fuel) unset s ≡ undefined
unfolding cleanup
cleanup-unset fuel s = refl

module _ (malloc : ℕ → Option ℕ) (fopen : List ℕ → Option (List ℕ)) where
  read_files-unset : (fuel : ℕ) (s : State) → read_files malloc fopen (suc fuel) unset s ≡ undefined
  unfolding read_files
  read_files-unset fuel s = refl

  -- A structure whose `next` was never set: the walk or the exit reads it.
  walk-undefined :
      (fuel p : ℕ) (name : List ℕ) (s : State)
      → s.heap p ≡ some (str name unset)
      → s.paths ≡ to p
      → 2 ≤ fuel
      → (read_files malloc fopen fuel (to p) s >>= λ r. exit fuel r) ≡ undefined
  walk-undefined zero p name s here head enough = absurd (omega arith)
  walk-undefined (suc zero) p name s here head enough = absurd (omega arith)
  walk-undefined (suc (suc fuel)) p name s here head enough =
      let s' = record s { printed = s.printed ++ (name ++ 10 ∷ []) } in
      let step = read_files_step malloc fopen (suc fuel) p name unset s here in
      let unwound : exit (suc (suc fuel)) (false, s') ≡ undefined =
        ap (λ q. cleanup (suc (suc fuel)) q s' >>= λ t. done (1, t)) head
        ∙ ap (λ r. r >>= λ t. done (1, t))
            (cleanup_step (suc fuel) p name unset s' here
              ∙ cleanup-unset fuel (record s' { heap = put s'.heap p none })) in
      elim (Option-cases (fopen name)) [
        | inl e ↦
            let closed : read_files malloc fopen (suc (suc fuel)) (to p) s ≡ done (false, s') =
              step ∙ rw e refl in
            ap (λ r. r >>= λ r. exit (suc (suc fuel)) r) closed ∙ unwound
        | inr (content, e) ↦
            let walked : read_files malloc fopen (suc (suc fuel)) (to p) s ≡ undefined =
              step ∙ rw e (read_files-unset fuel (parse_file malloc content s')) in
            ap (λ r. r >>= λ r. exit (suc (suc fuel)) r) walked
      ]

  module _ (access : List ℕ → Bool) (distinct : Distinct malloc) where
    find-stays :
        (names : List (List ℕ)) (s : State)
        → is_null s.paths ≡ false
        → find_makefile malloc access names s ≡ (true, s)
    unfolding find_makefile
    find-stays [] s h = refl
    find-stays (name ∷ names) s h = ground (arith, h)

    find-miss :
        (name : List ℕ) (names : List (List ℕ)) (s : State)
        → is_null s.paths ≡ true
        → access name ≡ false
        → find_makefile malloc access (name ∷ names) s ≡ find_makefile malloc access names s
    unfolding find_makefile
    find-miss name names s h e = ground (arith, h, e)

    find-hit :
        (name : List ℕ) (names : List (List ℕ)) (s s' : State) (p : ℕ)
        → is_null s.paths ≡ true
        → access name ≡ true
        → new_path malloc name s ≡ (some p, s')
        → find_makefile malloc access (name ∷ names) s ≡ (true, record s' { paths = to p })
    unfolding find_makefile
    find-hit name names s s' p h e made =
        let next : Option ℕ × State → Bool × State = λ r. elim r.0 [
          | none ↦ (false, r.1)
          | some q ↦ find_makefile malloc access names (record r.1 { paths = to q })
        ] in
        let first : find_makefile malloc access (name ∷ names) s ≡ next (new_path malloc name s) =
          rw (h, e) refl in
        first
        ∙ ap next made
        ∙ find-stays names (record s' { paths = to p }) (unfold is_null in refl)

    -- The state behind the search: a structure at `p` for `name`, its `next` not set.
    record Found (names : List (List ℕ)) (s : State) : Type 0 where
      p : ℕ
      name : List ℕ
      after : State
      runs : find_makefile malloc access names s ≡ (true, after)
      here : after.heap p ≡ some (str name unset)
      head : after.paths ≡ to p

    hit-Found :
        (name : List ℕ) (names : List (List ℕ)) (s : State)
        → ((k : ℕ) → malloc k ≢ none)
        → is_null s.paths ≡ true
        → access name ≡ true
        → Found (name ∷ names) s
    hit-Found name names s given h e = elim (Option-cases (malloc s.calls)) [
      | inl full ↦ absurd (given s.calls full)
      | inr (p, some_p) ↦ elim (Option-cases (malloc (s.calls + 1))) [
        | inl full ↦ absurd (given (s.calls + 1) full)
        | inr (q, some_q) ↦ record {
          p = p;
          name = name;
          after = _;
          runs =
              find-hit name names s _ p h e
                (new_path-both malloc distinct name s p q some_p some_q);
          here = ground arith;
          head = refl;
        }
      ]
    ]

    miss-Found :
        (name : List ℕ) (names : List (List ℕ)) (s : State)
        → is_null s.paths ≡ true
        → access name ≡ false
        → Found names s
        → Found (name ∷ names) s
    miss-Found name names s h e f = record {
      p = f.p;
      name = f.name;
      after = f.after;
      runs = find-miss name names s h e ∙ f.runs;
      here = f.here;
      head = f.head;
    }

    find-Found :
        (s : State)
        → ((k : ℕ) → malloc k ≢ none)
        → is_null s.paths ≡ true
        → (access (codes "./makefile") ≡ true) ⊎ (access (codes "./Makefile") ≡ true)
        → Found mkfiles s
    unfolding mkfiles
    find-Found s given h exists = elim (Bool-cases (access (codes "./makefile"))) [
      | inl e ↦ hit-Found (codes "./makefile") (codes "./Makefile" ∷ []) s given h e
      | inr e ↦
          miss-Found (codes "./makefile") (codes "./Makefile" ∷ []) s h e
            (hit-Found (codes "./Makefile") [] s given h (ground (arith, exists, e)))
    ]

    run-walks :
        (fuel : ℕ) (s : State) (f : Found mkfiles s)
        → run malloc access fopen fuel (true, s) ≡ read_files malloc fopen fuel (to f.p) f.after
    unfolding run is_null
    run-walks fuel s f = rw (f.runs, f.head) refl

    -- Without a `-f` among accepted options, with a standard makefile in place and all the memory it
    -- asks for, the behaviour of `main` is undefined, whether the file opens or not: `next` of the
    -- structure is read without having been set.
    pub main-unset :
        (fuel : ℕ) (getopt : Getopt) (argv : List (List ℕ))
        → let options = (getopt (codes "einpqrstf:kS") argv).options in
          operands options ≡ []
          → All IsAccepted options
          → 2 ≤ fuel
          → ((k : ℕ) → malloc k ≢ none)
          → (access (codes "./makefile") ≡ true) ⊎ (access (codes "./Makefile") ≡ true)
          → main malloc access fopen fuel getopt argv ≡ undefined
    main-unset fuel getopt argv no_f accepted enough given exists =
        let b =
          built malloc access fopen fuel distinct (getopt (codes "einpqrstf:kS") argv).options in
        let none_made : b.made ≡ [] =
          values-nil b.made (unfold values in (b.names (b.succeeds accepted given) ∙ no_f)) in
        let left = holding [] b.calls [] in
        let configured : configure malloc (getopt (codes "einpqrstf:kS") argv).options null start
            ≡ done (true, left) =
          unfold heap_of in
          (b.runs
            ∙ ap₂ (λ ok made. done (ok, holding made b.calls [])) (b.succeeds accepted given)
                none_made) in
        let f = find-Found left given (unfold is_null in refl) exists in
        main-run malloc access fopen fuel getopt argv (true, left) configured
        ∙ ap (λ r. r >>= λ r. exit fuel r) (run-walks fuel left f)
        ∙ walk-undefined fuel f.p f.name f.after f.here f.head enough
