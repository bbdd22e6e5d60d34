-- ===== src/Lex/Tests.antt =====
-- main.c of lex on concrete lines, and the theorems at concrete inputs.
use ganos.Base.{ℕ, ◌≡◌, ◌≢◌, refl, List, [], ◌∷◌, ◌++◌, Bool, true, none, ◌==◌, codes, Getopt, inl}
use ganos.Base.Run.{undefined}
use ganos.Lex.{
  State, start, stdout, unset, parse, is_separator, main, configure, options_loop, usage, release,
}
use ganos.Lex.Overrun.{parse-fourth}

abbrev white : ℕ → Bool
white c = c == 10

abbrev line_of : List ℕ → List ℕ
line_of text = text ++ 10 ∷ []

abbrev opened : State
opened = record start { outf = stdout }

stdout-opened : stdout ≢ unset
stdout-opened h = cc

abbrev helped : Getopt
helped spec argv = record { options = (104, []) ∷ []; optind = 2 }

usage_text :
    configure helped (codes "lex" ∷ codes "-h" ∷ []) start
    ≡ inl (record start { err = codes "Usage: lex [-h] [-t] [-n|-v] [file ...]" ++ 10 ∷ [] })
unfolding configure options_loop usage
usage_text = refl

-- The exit behind it closes a null pointer.
usage_exit :
    main (parse white) [] (λ name. none) helped true [] (codes "lex" ∷ codes "-h" ∷ []) start
    ≡ undefined
unfolding main configure options_loop usage release
usage_exit = refl

parse-fourth_example :
    parse white
      (line_of (codes "%%")
        ∷ line_of (codes "%%")
        ∷ line_of (codes "%%")
        ∷ line_of (codes "x")
        ∷ [])
      opened
    ≡ undefined
unfolding is_separator
parse-fourth_example =
    parse-fourth white [] [] [] (line_of (codes "%%")) (line_of (codes "%%")) (line_of (codes "%%"))
      (line_of (codes "x")) [] opened (record {}) (record {}) (record {}) refl refl refl refl
      stdout-opened
