-- ===== src/Make/Tests.antt =====
-- `make` with two makefiles, and without memory for their array.
use ganos.Base.{ℕ, ◌≡◌, ◌==◌, not, refl, [], ◌∷◌, Bool, true, codes, Getopt}
use ganos.Base.Run.{done, undefined}
use ganos.Make.{main}
use ganos.Make.Makefiles.{operands, main-operands, main-release_mem}

abbrev always : ℕ → ℕ → Bool
always k n = true

abbrev not_eight : ℕ → ℕ → Bool
not_eight k n = not (n == 8)

abbrev two_files : Getopt
two_files spec argv = record {
  options = (102, codes "a") ∷ (110, []) ∷ (102, codes "b") ∷ [];
  optind = 6;
}

main-operands_example : main always two_files [] ≡ done (0, codes "a" ∷ codes "b" ∷ [])
unfolding operands
main-operands_example =
    main-operands always (λ k n. refl) two_files [] (refl, (refl, (refl, record {})))

main-release_mem_example : main not_eight two_files [] ≡ undefined
main-release_mem_example =
    main-release_mem not_eight two_files [] (codes "a") ((110, []) ∷ (102, codes "b") ∷ []) 6 refl
      refl refl
