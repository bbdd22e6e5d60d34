-- ===== src/Ed/Tests.antt =====
-- The end of ed at a concrete input.
use ganos.Base.{refl, [], ◌∷◌, true, codes, arith, inl, inr, Getopt}
use ganos.Ed.{main}
use ganos.Ed.Ends.{Ended, prompt_of, main-Ended}
use ganos.Stdio.Bytewise.{fgets_bytewise, bytewise-IsFgets}

abbrev scan : Getopt
scan spec argv = record { options = (115, []) ∷ (112, codes "* ") ∷ []; optind = 4 }

main-Ended_example :
    Ended []
      (codes "* ")
      (codes "q")
      (main fgets_bytewise 5 scan true (λ k. 7) (codes "q") (codes "ed") [])
unfolding prompt_of
main-Ended_example =
    main-Ended fgets_bytewise bytewise-IsFgets 5 scan (λ k. 7) (codes "q") (codes "ed") (codes "* ")
      [] (inl refl, (inr refl, record {})) refl (omega arith)
