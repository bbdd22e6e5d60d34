-- ===== src/Cat/Tests.antt =====
-- `cat` and `echo` on concrete operands.
use ganos.Base.{
  Getopt, arith, ℕ, ◌≡◌, ◌++◌, refl, List, [], ◌∷◌, Option, none, some, codes, same, if◌then◌else◌,
}
use ganos.Cat.{main, echo}
use ganos.Cat.Operands.{missing, status}
use ganos.Cat.Main.{files_of, left_of, source, sources, main-sources}

abbrev one_file : List ℕ → Option (List ℕ)
one_file name = if same name (codes "a") then some (codes "hello") else none

abbrev getopt : Getopt
getopt spec argv = record { options = (117, []) ∷ []; optind = 2 }

abbrev argv : List (List ℕ)
argv = codes "cat" ∷ codes "-u" ∷ codes "a" ∷ codes "-" ∷ codes "b" ∷ codes "-" ∷ codes "a" ∷ []

main-sources_example :
    let names : List (List ℕ) = codes "a" ∷ codes "-" ∷ codes "b" ∷ codes "-" ∷ codes "a" ∷ [] in
    main one_file getopt argv (record { rval = 0; printed = []; errors = []; stdin = codes "in" })
    ≡ record {
      rval = status one_file 0 (missing one_file (files_of names));
      printed = sources one_file (codes "in") names;
      errors = missing one_file (files_of names);
      stdin = left_of (codes "in") names;
    }
main-sources_example =
    main-sources one_file getopt argv (codes "in") (refl, record {}) (omega arith)

printed_sources :
    sources one_file (codes "in") (codes "a" ∷ codes "-" ∷ codes "b" ∷ codes "-" ∷ codes "a" ∷ [])
    ≡ codes "helloinhello"
unfolding sources source
printed_sources = refl

echo_words : echo (codes "a" ∷ codes "b" ∷ []) ≡ codes "a b" ++ 10 ∷ []
unfolding echo
echo_words = refl
