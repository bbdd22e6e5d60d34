-- ===== src/Install/Tests.antt =====
-- The installation tool on a name that is typed in.
use ganos.Base.{ℕ, refl, List, [], ◌∷◌, ◌++◌, Bool, true, Option, some, codes, arith, Getopt}
use ganos.Install.{main}
use ganos.Install.Typed.{Opened, main-Opened}
use ganos.Stdio.Bytewise.{fgets_bytewise, bytewise-IsFgets}

abbrev scan : Getopt
scan spec argv = record { options = []; optind = 1 }

abbrev third : List ℕ → Option ℕ
third name = some 3

abbrev always : ℕ → Bool
always k = true

main-Opened_example : Opened third (codes "/dev/sda") (
    main third fgets_bytewise always
      (λ k. 7)
      256
      scan
      (codes "/dev/sda" ++ 10 ∷ [])
      (codes "alix-install")
      [])
main-Opened_example =
    main-Opened third fgets_bytewise always (λ k. 7) 256 scan (codes "/dev/sda") []
      (codes "alix-install") [] bytewise-IsFgets (λ k. refl) (record {}) (omega arith) (omega arith)
