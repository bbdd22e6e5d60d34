-- ===== src/Make.antt =====
-- usr/bin/make/src: the growing array of dynarray.h, and the options and the search of main.c.
-- `getopt` and which allocations succeed are parameters.
pub mod Makefiles
mod Tests
use ganos.Base.{
  ℕ, zero, suc, ◌+◌, ◌*◌, List, [], ◌∷◌, ◌++◌, ◌==◌, leb, if◌then◌else◌, Bool, true, false, ◌||◌,
  Option, none, some, codes, length, Getopt, Scan,
}
use ganos.Base.Run.{Run, done, undefined, ◌>>=◌}
use Prim.Native.Nat.{bit_or}

-- DYNARRAY(char *): the strings stored so far, a null pointer being `none`.
pub record Dynarray : Type 0 where
  pub array : Option (List (List ℕ))
  pub len : ℕ

abbrev dynarray_init : Dynarray
dynarray_init = record { array = none; len = 0 }

pub record State : Type 0 where
  pub in_makefiles : Dynarray
  pub flags : ℕ
  -- The names printed by the search.
  pub searched : List (List ℕ)

-- How the option loop is left: it goes on to the search, or the program ends with EXIT_FAILURE.
pub data Configured : Type 0 where
  go_on fail : State → Configured

-- `mf_paths` up to its null pointer.
pub mf_paths : List (List ℕ)
mf_paths =
    codes "./makefile"
    ∷ codes "./Makefile"
    ∷ codes "./s.makefile"
    ∷ codes "SCSS/s.makefile"
    ∷ codes "./s.Makefile"
    ∷ codes "SCSS/s.Makefile"
    ∷ []

-- `release_mem`, which runs at every exit: it reads `len` elements of the array.
release_mem : Dynarray → Run (List (List ℕ))
release_mem a = if a.len == 0 then done [] else elim a.array [
  | none ↦ undefined
  | some strings ↦ if leb a.len (length strings) then done strings else undefined
]

-- The options without an effect.
is_ignored : ℕ → Bool
is_ignored c = c == 107 || (c == 113 || (c == 114 || (c == 83 || (c == 115 || c == 116))))

-- `alloc` says which allocations succeed, by the number of the call, from 0, and the size: each
-- makefile takes two calls, so their number is known from the length of the array.
module _ (alloc : ℕ → ℕ → Bool) where
  -- `dynarray_append`: the length grows first; `false` is the exit without memory.
  dynarray_append : Dynarray → List ℕ → Bool × Dynarray
  dynarray_append a elem =
      if alloc (2 * a.len + 1) (8 * (a.len + 1))
      then (
        true,
        record {
          array = some (elim a.array [ none ↦ elem ∷ [] | some strings ↦ strings ++ elem ∷ [] ]);
          len = a.len + 1;
        },
      )
      else (false, record { array = none; len = a.len + 1 })

  -- The case `f`: a copy of the operand, then its place in the array.
  add_makefile : List ℕ → State → Configured
  unfolding dynarray_append
  add_makefile optarg s =
      if alloc (2 * s.in_makefiles.len) (length optarg + 1)
      then (let (ok, a) = dynarray_append s.in_makefiles optarg in
          if ok
          then go_on (record s { in_makefiles = a })
          else fail (record s { in_makefiles = a }))
      else fail s

  set_flag : ℕ → State → State
  set_flag flag s = record s { flags = bit_or s.flags flag }

  -- One option of `configure`.
  option : ℕ → List ℕ → State → Configured
  unfolding add_makefile set_flag is_ignored
  option c optarg s =
      if c == 101
      then go_on (set_flag 1 s)
      else if c == 102
      then add_makefile optarg s
      else if c == 105
      then go_on (set_flag 2 s)
      else if c == 110
      then go_on (set_flag 4 s)
      else if c == 112
      then go_on (set_flag 8 s)
      else if is_ignored c
      then go_on s
      else fail s

  pub configure : List (ℕ × List ℕ) → State → Configured
  configure [] s = go_on s
  configure ((c, optarg) ∷ options) s = elim (option c optarg s) [
    | fail s' ↦ fail s'
    | go_on s' ↦ configure options s'
  ]

  -- The exit status and the names searched; `mf_name` is never set, so the search of the standard
  -- names fails.
  pub main : Getopt → List (List ℕ) → Run (ℕ × List (List ℕ))
  unfolding configure release_mem mf_paths
  main getopt argv =
      elim (configure (getopt (codes "ef:hiknpqrSst") argv).options
        (record { in_makefiles = dynarray_init; flags = 0; searched = [] })) [
          | fail s ↦ release_mem s.in_makefiles >>= λ strings. done (1, s.searched)
          | go_on s ↦ release_mem s.in_makefiles >>= λ strings.
              if s.in_makefiles.len == 0
              then done (1, s.searched ++ mf_paths)
              else done (0, s.searched ++ strings)
        ]
