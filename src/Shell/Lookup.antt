-- ===== src/Shell/Lookup.antt =====
-- bin/sh/src/lookup.c and the table of bin/sh/src/builtins.c.
pub mod Path
use ganos.Base.{
  ℕ, zero, suc, ◌+◌, List, [], ◌∷◌, ◌++◌, ◌==◌, if◌then◌else◌, Bool, Option, none, some, codes,
  same, length,
}
use ganos.Base.Run.{Run, done, undefined, out_of_fuel, ◌>>=◌}
use ganos.Shell.World.{World}

-- The functions that the table points to.
pub data BuiltinUtil : Type 0 where
  cd exit set which : BuiltinUtil

-- `struct lookup_entry`, and `lookup_table` without the entry that ends it.
pub record LookupEntry : Type 0 where
  pub util : List ℕ
  pub function : BuiltinUtil

abbrev pub lookup_table : List LookupEntry
lookup_table =
    record { util = codes "cd"; function = cd }
    ∷ record { util = codes "exit"; function = exit }
    ∷ record { util = codes "set"; function = set }
    ∷ record { util = codes "which"; function = which }
    ∷ []

search_table : List LookupEntry → List ℕ → Option BuiltinUtil
search_table [] util = none
search_table (entry ∷ entries) util =
    if same util entry.util then some entry.function else search_table entries util

unfoldable pub builtin_lookup : List ℕ → Option BuiltinUtil
unfolding search_table
builtin_lookup util = search_table lookup_table util

-- The four results of `lookup`.
pub data LookupType : Type 0 where
  notfound builtin alias path : LookupType

-- `for (c = p; *c != '\0' && *c != ':'; c++)`: the bytes passed, and those from `c` on.
pub component : List ℕ → List ℕ × List ℕ
component [] = ([], [])
component (x ∷ xs) =
    let (before, rest) = component xs in if x == 58 then ([], x ∷ xs) else (x ∷ before, rest)

-- `if (*c == ':') { *c = '\0'; c++; }`
skip_colon : List ℕ → List ℕ
skip_colon [] = []
skip_colon (x ∷ xs) = if x == 58 then xs else x ∷ xs

-- `while (*p)`, the components that it prints.
path_loop : ℕ → List ℕ → Run (List (List ℕ))
unfolding skip_colon
path_loop zero p = out_of_fuel
path_loop (suc fuel) [] = done []
path_loop (suc fuel) (x ∷ p) =
    let (before, rest) = component (x ∷ p) in
    path_loop fuel (skip_colon rest) >>= λ cs. done (before ∷ cs)

-- `printf("current path = %s\n", p)` for each component.
pub current_paths : List (List ℕ) → List (List ℕ)
current_paths [] = []
current_paths (c ∷ cs) = (codes "current path = " ++ c) ∷ current_paths cs

-- What stands behind a name in an entry of the environment.
value_of : List ℕ → List ℕ → Option (List ℕ)
value_of [] entry = some entry
value_of (x ∷ xs) [] = none
value_of (x ∷ xs) (y ∷ entry) = let rest = value_of xs entry in if x == y then rest else none

-- The entry of PATH that `getenv` finds ends before its first colon.
pub cut_environ : List (List ℕ) → List (List ℕ)
unfolding value_of
cut_environ [] = []
cut_environ (entry ∷ environ) =
    let rest = cut_environ environ in
    elim (value_of (codes "PATH=") entry) [
      | some p ↦ (codes "PATH=" ++ (component p).0) ∷ environ
      | none ↦ entry ∷ rest
    ]

-- `lookup`. The colons that the loop overwrites lie in the environment: afterwards PATH ends before
-- the first of them. A PATH that is not set is printed and read through a null pointer.
search_path : ℕ → List ℕ → World → Run (LookupType × World)
unfolding path_loop component current_paths cut_environ
search_path fuel p w = path_loop fuel p >>= λ cs. done (
  notfound,
  record w {
    path = some (component p).0;
    environ = cut_environ w.environ;
    printed = w.printed ++ current_paths cs;
    errors = w.errors ++ p ∷ [];
  },
)

pub lookup : ℕ → List ℕ → World → Run (LookupType × World)
unfolding search_path
lookup fuel sn w = elim w.path [
  | none ↦ undefined
  | some p ↦ elim (builtin_lookup sn) [
    | none ↦ search_path fuel p w
    | some f ↦ done (builtin, record w { errors = w.errors ++ p ∷ [] })
  ]
]
