-- ===== src/Shell/Session/Tests.antt =====
-- A session of two commands: one that is built in, and one for which the process forks.
use ganos.Base.{ℕ, ◌≡◌, refl, arith, List, [], ◌∷◌, map, Bool, true, none, codes, Getopt}
use ganos.Base.Run.{done, ◌>>=◌}
use ganos.Shell.World.{World, Chdir, moves}
use ganos.Shell.Process.{Fork, in_parent}
use ganos.Shell.Process.Spaced.{spaced}
use ganos.Shell.Reader.{prompt1}
use ganos.Shell.Reader.Quoting.{typed}
use ganos.Shell.Session.{run}
use ganos.Shell.Session.Interpreter.{Command, line_of, view, interpret, run-interpret}

abbrev no_options : Getopt
no_options spec argv = record { options = []; optind = 1 }

abbrev anywhere : Chdir
anywhere cwd path = moves path

abbrev found : List ℕ → Bool
found name = true

abbrev parent : ℕ → Fork
parent n = in_parent

abbrev world : World
world = record {
  cwd = codes "/";
  home = none;
  path = none;
  environ = [];
  printed = [];
  errors = [];
}

abbrev commands : List Command
commands = (codes "cd", codes "\\b" ∷ []) ∷ (codes "ls", codes "-l" ∷ []) ∷ []

run-interpret_example :
    (run no_options anywhere found 0 parent (λ n. true) (typed (map line_of commands)) world
      >>= λ r. done (view r))
    ≡ interpret no_options anywhere found 0 parent commands 0 (prompt1 ∷ []) world
unfolding spaced
run-interpret_example =
    run-interpret no_options anywhere found 0 parent (λ n. true) (λ n. refl) commands world
      (
        ((refl, (refl, record {})), ((refl, (refl, record {})), record {}), omega arith),
        (
          ((refl, (refl, record {})), ((refl, (refl, record {})), record {}), omega arith),
          record {},
        ),
      )
      (omega arith)
