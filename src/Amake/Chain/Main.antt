-- ===== src/Amake/Chain/Main.antt =====
-- `main` of amake with makefiles named by `-f`.
use ganos.Base.{
  ℕ, ◌<◌, ◌≡◌, ◌≢◌, refl, sym, ap, ap₂, ◌∙◌, arith, List, [], ◌∷◌, if◌then◌else◌, Bool, true, false,
  Bool-cases, inl, inr, Option, none, All, length, codes, Getopt,
}
use ganos.Base.Run.{Run, done, ◌>>=◌}
use ganos.Amake.{
  null, State, start, is_null, mkfiles, find_makefile, read_files, cleanup, configure, run, main,
}
use ganos.Amake.Chain.{Cells, head_of, heap_of, Nodup, values}
use ganos.Amake.Chain.Configure.{holding, Distinct}
use ganos.Amake.Chain.Operands.{operands, IsAccepted, Built, configure-Built}
use ganos.Amake.Chain.Exit.{empty, cleanup_lem, Stands-heap_of, report, Opens, read_files-Reads}

head_of-is_null : (cells : Cells) → values cells ≢ [] → is_null (head_of cells) ≡ false
unfolding is_null values
head_of-is_null [] ne = absurd (ne refl)
head_of-is_null ((p, name) ∷ cells) ne = refl

abbrev pub exit : ℕ → Bool × State → Run (ℕ × State)
exit fuel r = cleanup fuel (r.1).paths r.1 >>= λ s'. done (if r.0 then 0 else 1, s')

exit_lem :
    (fuel : ℕ) (ok : Bool) (s : State) (cells : Cells)
    → s.heap ≡ heap_of cells
    → s.paths ≡ head_of cells
    → Nodup cells
    → length cells < fuel
    → exit fuel (ok, s) ≡ done (if ok then 0 else 1, record s { heap = empty })
exit_lem fuel ok s cells here head nodup enough =
    let freed : cleanup fuel s.paths s ≡ done (record s { heap = empty }) =
      ap₂ (λ p h. cleanup fuel p (record s { heap = h })) head here
      ∙ cleanup_lem fuel cells s nodup enough in
    ap (λ r. r >>= λ s'. done (if ok then 0 else 1, s')) freed

module _ (malloc : ℕ → Option ℕ) (access : List ℕ → Bool) (fopen : List ℕ → Option (List ℕ))
    (fuel : ℕ) where
  find_makefile-found :
      (s : State) → is_null s.paths ≡ false → find_makefile malloc access mkfiles s ≡ (true, s)
  unfolding find_makefile mkfiles
  find_makefile-found s h = ground (arith, h)

  run-found :
      (s : State)
      → is_null s.paths ≡ false
      → run malloc access fopen fuel (true, s) ≡ read_files malloc fopen fuel s.paths s
  unfolding run
  run-found s h = rw (find_makefile-found s h) (ground (arith, h))

  pub main-run :
      (getopt : Getopt) (argv : List (List ℕ)) (r : Bool × State)
      → configure malloc (getopt (codes "einpqrstf:kS") argv).options null start ≡ done r
      → main malloc access fopen fuel getopt argv
        ≡ (run malloc access fopen fuel r >>= λ r. exit fuel r)
  unfolding main
  main-run getopt argv r configured =
      ap (λ c. c >>= λ r. run malloc access fopen fuel r >>= λ r. exit fuel r) configured

  main-exit :
      (getopt : Getopt) (argv : List (List ℕ)) (r r' : Bool × State)
      → configure malloc (getopt (codes "einpqrstf:kS") argv).options null start ≡ done r
      → run malloc access fopen fuel r ≡ done r'
      → main malloc access fopen fuel getopt argv ≡ exit fuel r'
  main-exit getopt argv r r' configured runs =
      main-run getopt argv r configured ∙ ap (λ c. c >>= λ r. exit fuel r) runs

  abbrev pub built :
      (distinct : Distinct malloc) (options : List (ℕ × List ℕ))
      → Built malloc distinct options [] [] (configure malloc options null (holding [] 0 []))
  built distinct options =
      configure-Built malloc distinct options [] 0 [] (record { nodup = tt; taken = tt })

  -- If no call of `malloc` hands out a block twice, whichever fail, and there is a `-f` among the
  -- options, `main` returns with fuel for the options: every structure is freed. If all options are
  -- accepted, all files open and no allocation fails, the status is 0, and it has printed each name
  -- given by `-f` with the contents of its file, in order.
  pub main-frees :
      (distinct : Distinct malloc) (getopt : Getopt) (argv : List (List ℕ))
      → let options = (getopt (codes "einpqrstf:kS") argv).options in
        operands options ≢ []
        → length options < fuel
        → (status : ℕ) × (s : State) × (main malloc access fopen fuel getopt argv
            ≡ done (status, s))
          × (s.heap ≡ empty)
          × (All IsAccepted options
              → ((k : ℕ) → malloc k ≢ none)
              → Opens malloc fopen (operands options)
              → (status ≡ 0) × (s.printed ≡ report fopen (operands options)))
  main-frees distinct getopt argv some_f enough =
      let options = (getopt (codes "einpqrstf:kS") argv).options in
      let b = built distinct options in
      let left = holding b.made b.calls [] in
      let configured : configure malloc options null start ≡ done (b.ok, left) =
        unfold heap_of in b.runs in
      let bound : length b.made < fuel = omega (arith, b.size) in
      elim (Bool-cases b.ok) [
        | inl e ↦
            let names : values b.made ≡ operands options = unfold values in b.names e in
            let r =
              read_files-Reads malloc fopen fuel b.made left (Stands-heap_of b.made b.is_list.nodup)
                bound in
            (
              if r.ok then 0 else 1,
              record r.after { heap = empty },
              main-exit getopt argv (b.ok, left) (r.ok, r.after) configured
                    (rw e (
                      run-found left (head_of-is_null b.made (λ z. some_f (sym names ∙ z)))
                      ∙ r.runs))
                  ∙ exit_lem fuel r.ok r.after b.made r.heap r.paths b.is_list.nodup bound,
              refl,
              λ accepted given opens.
                  let (succeeds, printed) = r.prints (rw (← names) at opens) given in
                  (rw succeeds refl, printed ∙ ap (report fopen) names),
            )
        | inr e ↦ (
          1,
          record left { heap = empty },
          main-exit getopt argv (b.ok, left) (false, left) configured (rw e (unfold run in refl))
              ∙ exit_lem fuel false left b.made refl refl b.is_list.nodup bound,
          refl,
          λ accepted given opens. cc (b.succeeds accepted given, e),
        )
      ]
