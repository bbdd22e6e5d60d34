-- ===== src/Shell/Builtins.antt =====
-- The built-in commands of bin/sh/src/builtins.c. `getopt` and `chdir` are parameters; a command
-- returns its status and the world that it leaves.
use ganos.Base.{
  ℕ, List, [], ◌∷◌, ◌++◌, ◌==◌, ltb, if◌then◌else◌, Bool, true, false, Option, none, some, codes,
  length, get_elem?, Getopt,
}
use ganos.Base.Run.{Run, done, undefined, ◌>>=◌, in_bounds}
use ganos.Shell.World.{World, Chdir, moves, fails}
use ganos.Shell.Lookup
use ganos.Shell.Lookup.{BuiltinUtil, cd, exit, set, which, LookupType, lookup}

-- The loop over the options of `cd`: `none` is the return on `?`, otherwise `logical`. The label
-- behind that case is spelled `deafult` and takes no other option.
cd_options : List (ℕ × List ℕ) → Bool → Option Bool
cd_options [] logical = some logical
cd_options ((c, arg) ∷ options) logical =
    let rest = cd_options options (if c == 76 then true else if c == 80 then false else logical) in
    if c == 63 then none else rest

-- `chdir(path)`, and the report if it fails.
change : Chdir → List ℕ → List ℕ → World → World
change chdir argv0 path w = elim (chdir w.cwd path) [
  | fails message ↦ record w { errors = w.errors ++ (argv0 ++ codes ": " ++ message) ∷ [] }
  | moves d ↦ record w { cwd = d }
]

-- Without an operand and without HOME, `ret` is read although nothing was assigned to it.
go : Chdir → List ℕ → Option (List ℕ) → World → Run (ℕ × World)
unfolding change
go chdir argv0 operand w = elim operand [
  | some path ↦ done (0, change chdir argv0 path w)
  | none ↦ elim w.home [ none ↦ undefined | some path ↦ done (0, change chdir argv0 path w) ]
]

module _ (getopt : Getopt) (chdir : Chdir) where
  pub builtin_cd : List (List ℕ) → World → Run (ℕ × World)
  unfolding cd_options go
  builtin_cd argv w =
      let scan = getopt (codes "LP") argv in
      elim (cd_options scan.options true) [
        | none ↦ done (1, w)
        | some logical ↦ in_bounds (get_elem? argv 0) >>= λ argv0.
            go chdir argv0
              (if ltb scan.optind (length argv) then get_elem? argv scan.optind else none) w
      ]

  -- `write(0, …)`: the message goes to descriptor 0.
  builtin_exit : List (List ℕ) → World → Run (ℕ × World)
  builtin_exit argv w = done (1, w)

  builtin_set : List (List ℕ) → World → Run (ℕ × World)
  builtin_set argv w =
      if length argv == 1
      then done (0, record w { printed = w.printed ++ w.environ })
      else done (0, w)

  -- `which` without an operand compares with a null pointer.
  builtin_which : ℕ → List (List ℕ) → World → Run (ℕ × World)
  builtin_which fuel argv w = do
    short_name ← in_bounds (get_elem? argv 1)
    (type, w') ← lookup fuel short_name w
    done (
      0,
      elim type [
        | Lookup.builtin ↦ record w' {
          printed = w'.printed ++ (short_name ++ codes ": shell built-in command") ∷ [];
        }
        | _ ↦ w'
      ],
    )

  pub call_builtin : ℕ → BuiltinUtil → List (List ℕ) → World → Run (ℕ × World)
  unfolding builtin_exit builtin_set builtin_which
  call_builtin fuel cd = builtin_cd
  call_builtin fuel exit = builtin_exit
  call_builtin fuel set = builtin_set
  call_builtin fuel which = builtin_which fuel
