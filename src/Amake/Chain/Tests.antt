-- ===== src/Amake/Chain/Tests.antt =====
-- `amake` with two makefiles, and without one.
use ganos.Base.{
  ℕ, ◌+◌, ◌*◌, ◌≡◌, ◌≢◌, refl, arith, inl, List, [], ◌∷◌, Bool, true, Option, none, some, codes,
  Getopt, All,
}
use ganos.Base.Run.{done, undefined}
use ganos.Amake.{State, null, main, configure}
use ganos.Amake.Chain.Configure.{Distinct, holding}
use ganos.Amake.Chain.Operands.{operands, IsAccepted, Built, configure-Built}
use ganos.Amake.Chain.Exit.{empty, report, Opens}
use ganos.Amake.Chain.Main.{main-frees}
use ganos.Amake.Chain.Unlinked.{main-unset}

-- The fifth call fails.
abbrev blocks : ℕ → Option ℕ
blocks n = some (100 + n * 16)

blocks-Distinct : Distinct blocks
blocks-Distinct i j p e e' = ground arith

abbrev two_files : Getopt
two_files spec argv = record {
  options = (102, codes "a") ∷ (110, []) ∷ (102, codes "b") ∷ [];
  optind = 6;
}

abbrev no_files : Getopt
no_files spec argv = record { options = (110, []) ∷ []; optind = 2 }

abbrev anything : List ℕ → Option (List ℕ)
anything name = some (codes "all:")

abbrev exists : List ℕ → Bool
exists name = true

main-frees_example :
    (status : ℕ) × (s : State) × (main blocks exists anything 4 two_files [] ≡ done (status, s))
    × (s.heap ≡ empty)
    × (All IsAccepted (two_files (codes "einpqrstf:kS") []).options
        → ((k : ℕ) → blocks k ≢ none)
        → Opens blocks anything (operands (two_files (codes "einpqrstf:kS") []).options)
        → (status ≡ 0)
          × (s.printed ≡ report anything (operands (two_files (codes "einpqrstf:kS") []).options)))
unfolding operands
main-frees_example =
    main-frees blocks exists anything 4 blocks-Distinct two_files [] (λ e. cc) (omega arith)

configure-Built_example :
    Built blocks blocks-Distinct
      ((102, codes "a") ∷ [])
      []
      []
      (configure blocks ((102, codes "a") ∷ []) null (holding [] 0 []))
configure-Built_example =
    configure-Built blocks blocks-Distinct ((102, codes "a") ∷ []) [] 0 []
      (record { nodup = tt; taken = tt })

main-unset_example : main blocks exists anything 5 no_files [] ≡ undefined
unfolding operands
main-unset_example =
    main-unset blocks anything exists blocks-Distinct 5 no_files [] refl (omega arith) (omega arith)
      (λ k e. cc) (inl refl)
