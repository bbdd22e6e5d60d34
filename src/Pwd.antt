-- ===== src/Pwd.antt =====
-- usr/bin/pwd/src/main.c, where PATH_MAX is defined. `getopt` and `realpath` are parameters.
use ganos.Base.{
  ℕ, List, [], ◌∷◌, ◌++◌, ◌==◌, ◌≡◌, ap, ◌⊎◌, inl, inr, arith, refl, if◌then◌else◌, Option, none,
  some, codes, All, Getopt,
}

data Mode : Type 0 where
  mode_env mode_lib : Mode

-- The options: `none` is the return of 1.
options_loop : List (ℕ × List ℕ) → Mode → Option Mode
options_loop [] mode = some mode
options_loop ((c, optarg) ∷ options) mode =
    let env = options_loop options mode_env in
    let lib = options_loop options mode_lib in
    if c == 76 then env else if c == 80 then lib else none

usage : List ℕ → List ℕ
usage name = codes "Usage: " ++ name ++ codes " [-L|-P]" ++ 10 ∷ []

mode_line : Mode → List ℕ
mode_line mode_env = codes "MODE_ENV" ++ 10 ∷ []
mode_line mode_lib = codes "MODE_LIB" ++ 10 ∷ []

-- The status, standard output and standard error. `realpath` gives what `buf` then holds.
main : Getopt → (List ℕ → List ℕ) → List ℕ → List (List ℕ) → ℕ × List ℕ × List ℕ
unfolding options_loop usage mode_line
main getopt realpath name argv = elim (options_loop (getopt (codes "LP") argv).options mode_env) [
  | none ↦ (1, [], usage name)
  | some mode ↦ (0, mode_line mode ++ realpath (codes ".") ++ 10 ∷ [], [])
]

-- The mode that the last option chooses.
last_mode : List (ℕ × List ℕ) → Mode → Mode
last_mode [] mode = mode
last_mode ((c, optarg) ∷ options) mode = last_mode options (if c == 80 then mode_lib else mode_env)

options_loop_lem :
    (options : List (ℕ × List ℕ)) (mode : Mode)
    → All (λ (c, optarg). (c ≡ 76) ⊎ (c ≡ 80)) options
    → options_loop options mode ≡ some (last_mode options mode)
unfolding options_loop last_mode
options_loop_lem [] mode h = refl
options_loop_lem ((c, optarg) ∷ options) mode (inl env, h) =
    ground (arith, env, options_loop_lem options mode_env h)
options_loop_lem ((c, optarg) ∷ options) mode (inr lib, h) =
    ground (arith, lib, options_loop_lem options mode_lib h)

-- With known options `pwd` prints the mode of the last one, and the directory under either mode.
main_last :
    (getopt : Getopt) (realpath : List ℕ → List ℕ) (name : List ℕ) (argv : List (List ℕ))
    → All (λ (c, optarg). (c ≡ 76) ⊎ (c ≡ 80)) (getopt (codes "LP") argv).options
    → main getopt realpath name argv ≡ (
      0,
      mode_line (last_mode (getopt (codes "LP") argv).options mode_env)
          ++ realpath (codes ".")
          ++ 10 ∷ [],
      [],
    )
unfolding main
main_last getopt realpath name argv known =
    ap
      (λ mode. elim mode [
        | none ↦ (1, [], usage name)
        | some mode ↦ (0, mode_line mode ++ realpath (codes ".") ++ 10 ∷ [], [])
      ])
      (options_loop_lem (getopt (codes "LP") argv).options mode_env known)
