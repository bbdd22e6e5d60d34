-- ===== src/Amake.antt =====
-- usr/bin/amake/main.c: the linked list of makefile names in a heap, how `configure` and `main`
-- build it, the walk over it, and `cleanup`. `getopt`, `access`, `fopen` and `malloc` are parameters.
pub mod Chain
use ganos.Base.{
  ℕ, zero, suc, ◌+◌, List, [], ◌∷◌, ◌++◌, ◌==◌, ◌||◌, if◌then◌else◌, Bool, true, false, Option,
  none, some, codes, Getopt,
}
use ganos.Base.Run.{Run, done, undefined, out_of_fuel, ◌>>=◌}

-- A `struct str *`: not set yet, the null pointer, or an address.
pub data Pointer : Type 0 where
  unset null : Pointer
  to : ℕ → Pointer

-- `struct str` of defs.h, with the string that `value` points to (`none` before it is set).
pub record Str : Type 0 where
  pub value : Option (List ℕ)
  pub next : Pointer

abbrev pub Heap : Type 0
Heap = ℕ → Option Str

abbrev pub put : Heap → ℕ → Option Str → Heap
put h p s q = if q == p then s else h q

-- `calls` counts the calls of `malloc` and `strdup`. What goes to standard error is left out.
pub record State : Type 0 where
  pub heap : Heap
  pub calls : ℕ
  pub paths : Pointer
  pub printed : List ℕ

abbrev pub start : State
start = record { heap = λ p. none; calls = 0; paths = null; printed = [] }

-- How an option is left: with `pend` and the globals, or by the return of 1.
pub data Configured : Type 0 where
  go_on : Pointer → State → Configured
  fail : State → Configured

-- `mkfiles`, without XSI_CONFORMANT, which no file defines.
pub mkfiles : List (List ℕ)
mkfiles = codes "./makefile" ∷ codes "./Makefile" ∷ []

pub is_null : Pointer → Bool
is_null unset = false
is_null null = true
is_null (to p) = false

-- `p->next = q`.
pub set_next : ℕ → Pointer → Heap → Run Heap
set_next p q h = elim (h p) [
  | none ↦ undefined
  | some s ↦ done (put h p (some (record s { next = q })))
]

-- `if (pend) pend->next = p`.
pub link : Pointer → ℕ → Heap → Run Heap
unfolding set_next
link unset p h = undefined
link null p h = done h
link (to q) p h = set_next q (to p) h

-- A new structure at the end of the list, if there was memory for it.
pub append : Pointer → Option ℕ × State → Run Configured
unfolding set_next link is_null
append pend (none, s) = done (fail s)
append pend (some p, s) = set_next p null s.heap >>= λ h. link pend p h >>= λ h'.
    done
      (go_on (to p) (record s { heap = h'; paths = (if is_null s.paths then to p else s.paths) }))

-- `cleanup` from `s` on.
pub cleanup : ℕ → Pointer → State → Run State
cleanup zero p s = out_of_fuel
cleanup (suc fuel) unset s = undefined
cleanup (suc fuel) null s = done s
cleanup (suc fuel) (to p) s = elim (s.heap p) [
  | none ↦ undefined
  | some str ↦ elim str.value [
    | none ↦ undefined
    | some value ↦ cleanup fuel str.next (record s { heap = put s.heap p none })
  ]
]

-- `malloc`: the address that its call of this number returns, `none` for a null pointer.
module _ (malloc : ℕ → Option ℕ) where
  -- A structure and the copy of a name; without memory for the copy the structure is freed.
  pub new_path : List ℕ → State → Option ℕ × State
  new_path name s = elim (malloc s.calls) [
    | none ↦ (none, record s { calls = s.calls + 1 })
    | some p ↦
        let h = put s.heap p (some (record { value = none; next = unset })) in
        elim (malloc (s.calls + 1)) [
          | none ↦ (none, record s { heap = put h p none; calls = s.calls + 2 })
          | some copy ↦ (
            some p,
            record s {
              heap = put h p (some (record { value = some name; next = unset }));
              calls = s.calls + 2;
            },
          )
        ]
  ]

  -- The case `f` of `configure`.
  pub add_path : List ℕ → Pointer → State → Run Configured
  unfolding new_path append
  add_path optarg pend s = append pend (new_path optarg s)

  -- One option; those that are not in the `switch` change nothing either.
  pub option : ℕ → List ℕ → Pointer → State → Run Configured
  option c optarg pend s =
      if c == 102
      then add_path optarg pend s
      else if c == 104 || c == 63
      then done (fail s)
      else done (go_on pend s)

  -- The loop of `configure`: `false` is the return of 1.
  pub configure : List (ℕ × List ℕ) → Pointer → State → Run (Bool × State)
  configure [] pend s = done (true, s)
  configure ((c, optarg) ∷ options) pend s = option c optarg pend s >>= λ r. elim r [
    | fail s' ↦ done (false, s')
    | go_on pend' s' ↦ configure options pend' s'
  ]

  -- The search for a standard name: `next` of the structure stays as `malloc` left it.
  pub find_makefile : (List ℕ → Bool) → List (List ℕ) → State → Bool × State
  find_makefile access [] s = (true, s)
  find_makefile access (path ∷ rest) s =
      let later = find_makefile access rest s in
      if is_null s.paths
      then if access path
        then (let (found, s') = new_path path s in
            elim found [
              | none ↦ (false, s')
              | some p ↦ find_makefile access rest (record s' { paths = to p })
            ])
        else later
      else (true, s)

  -- `parse_file` prints the file, if there is memory for its line buffer.
  pub parse_file : List ℕ → State → State
  parse_file content s = elim (malloc s.calls) [
    | none ↦ record s { calls = s.calls + 1 }
    | some buf ↦ record s { calls = s.calls + 1; printed = s.printed ++ content }
  ]

  -- The loop of `main` over the list: `false` is the return of 1.
  pub read_files : (List ℕ → Option (List ℕ)) → ℕ → Pointer → State → Run (Bool × State)
  read_files fopen zero p s = out_of_fuel
  read_files fopen (suc fuel) unset s = undefined
  read_files fopen (suc fuel) null s = done (true, s)
  read_files fopen (suc fuel) (to p) s = elim (s.heap p) [
    | none ↦ undefined
    | some str ↦ elim str.value [
      | none ↦ undefined
      | some name ↦
          let s' = record s { printed = s.printed ++ (name ++ 10 ∷ []) } in
          elim (fopen name) [
            | none ↦ done (false, s')
            | some content ↦ read_files fopen fuel str.next (parse_file content s')
          ]
    ]
  ]

  module _ (access : List ℕ → Bool) (fopen : List ℕ → Option (List ℕ)) (fuel : ℕ) where
    -- `main` behind `configure`.
    pub run : Bool × State → Run (Bool × State)
    unfolding find_makefile mkfiles is_null
    run (false, s) = done (false, s)
    run (true, s) =
        let (found, s') = find_makefile access mkfiles s in
        if found
        then if is_null s'.paths then done (false, s') else read_files fopen fuel s'.paths s'
        else done (false, s')

    -- `main`, and `cleanup` at its exit.
    pub main : Getopt → List (List ℕ) → Run (ℕ × State)
    unfolding run
    main getopt argv = configure (getopt (codes "einpqrstf:kS") argv).options null start >>= λ r.
        run r >>= λ (ok, s). cleanup fuel s.paths s >>= λ s'. done (if ok then 0 else 1, s')
