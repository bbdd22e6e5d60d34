-- ===== src/Shell/Tests.antt =====
-- The theorems on the shell at concrete inputs, and runs of its functions.
use ganos.Base.{
  ℕ, ◌≡◌, ◌<◌, refl, ap, arith, List, [], ◌∷◌, Bool, true, some, none, codes, Mem, length, get_or,
  Getopt, ◌++◌,
}
use ganos.Base.Run.{done}
use ganos.Shell.Reader.{prompt1, prompt2, command, main}
use ganos.Shell.Reader.Lines.{unescaped, main_lem}
use ganos.Shell.Reader.Quoting.{typed, processed, main-typed}
use ganos.Shell.Split.{Splitter, split}
use ganos.Shell.Split.Words.{first_start, starts, cut, split_lem}
use ganos.Shell.World.{World, Chdir, moves}
use ganos.Shell.Lookup.{builtin_lookup, lookup, notfound}
use ganos.Shell.Lookup.Path.{joined, lookup-path}
use ganos.Shell.Process.{in_child, process, dispatch}
use ganos.Shell.Process.Argv.{words_from, process-words}

abbrev input : List ℕ
input = codes "ab\\\ncd\nx\n"

main_example : main (λ n. true) input ≡ done (prompt1 ∷ unescaped Bool.false [] input)
main_example = main_lem (λ n. true) (λ n. refl) input (omega arith)

described :
    unescaped Bool.false [] input
    ≡ prompt2 ∷ command (codes "abcd") ∷ prompt1 ∷ command (codes "x") ∷ prompt1 ∷ []
unfolding unescaped
described = refl

abbrev lines : List (List ℕ)
lines = codes "exit" ∷ codes "a\\b" ∷ []

main-typed_example : main (λ n. true) (typed lines) ≡ done (prompt1 ∷ processed lines)
main-typed_example = main-typed (λ n. true) lines (λ n. refl) (grind arith) (omega arith)

-- "ls -l " and its NUL
abbrev line : Mem
line k = get_or (codes "ls -l ") k 0

split_example :
    (p : Splitter) × (split (λ n. true) line 7 ≡ done p)
    × (p.command ≡ first_start line 7)
    × (p.args ≡ starts line 7)
    × (length p.args < p.args_sz)
    × ((k : ℕ) → p.buf k ≡ cut line 7 k)
split_example = split_lem (λ n. true) (λ n. refl) line 7 (omega arith)

-- The blank at the end adds an argument, the empty string at 6.
trailing_blank : starts line 7 ≡ 0 ∷ 3 ∷ 6 ∷ []
trailing_blank = refl

abbrev dirs : List (List ℕ)
dirs = codes "/bin" ∷ codes "/usr/bin" ∷ []

abbrev world : World
world = record {
  cwd = codes "/";
  home = none;
  path = some (joined dirs);
  environ = codes "TERM=vt100" ∷ codes "PATH=/bin:/usr/bin" ∷ [];
  printed = [];
  errors = [];
}

lookup-path_example :
    lookup 14 (codes "ls") world
    ≡ done (
      notfound,
      record world {
        path = some (codes "/bin");
        environ = codes "TERM=vt100" ∷ codes "PATH=/bin" ∷ [];
        printed = codes "current path = /bin" ∷ codes "current path = /usr/bin" ∷ [];
        errors = joined dirs ∷ [];
      },
    )
unfolding builtin_lookup
lookup-path_example =
    lookup-path (codes "ls") dirs (codes "TERM=vt100" ∷ []) [] world (grind arith) refl refl
      ((λ p e. absurd (omega (arith, ap (λ l. get_or l 0 0) e))), record {}) refl

abbrev no_options : Getopt
no_options opts argv = record { options = []; optind = 1 }

abbrev anywhere : Chdir
anywhere cwd path = moves path

abbrev found : List ℕ → Bool
found file = true

abbrev ls_line : Mem
ls_line k = get_or (codes "ls -l") k 0

-- `process` on "ls -l", in the child.
process-words_example :
    process no_options anywhere found (λ n. true) 0 in_child ls_line 6 world
    ≡ dispatch no_options anywhere found 0 in_child
        (get_or (words_from true (codes "ls -l")) 0 [])
        (words_from true (codes "ls -l"))
        (record world { errors = world.errors ++ codes "reached process(char *, size_t)" ∷ [] })
process-words_example =
    process-words no_options anywhere found (λ n. true) 0 in_child ls_line (codes "ls -l") world
      (λ n. refl) (omega arith) (omega arith)
