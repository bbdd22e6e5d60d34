-- ===== src/Make/Makefiles.antt =====
-- The makefiles that `make` searches for.
use ganos.Base.{
  Bool-cases, ℕ, suc, ◌+◌, ◌*◌, ◌≡◌, ◌≢◌, inl, inr, refl, sym, ap, ◌∙◌, arith, List, [], ◌∷◌, ◌++◌,
  append_assoc, append-nil, ◌==◌, if◌then◌else◌, Bool, true, false, ◌||◌, none, some, codes, length,
  length-append, All, Getopt,
}
use ganos.Base.Run.{Run, done, undefined, ◌>>=◌}
use ganos.Make.{
  Dynarray, dynarray_init, State, Configured, go_on, fail, mf_paths, release_mem, is_ignored,
  dynarray_append, add_makefile, set_flag, option, configure, main,
}
use Prim.Native.Nat.{bit_or}

-- The operands of `-f`, in order.
unfoldable pub operands : List (ℕ × List ℕ) → List (List ℕ)
operands [] = []
operands ((c, optarg) ∷ options) = if c == 102 then optarg ∷ operands options else operands options

abbrev pub is_known : ℕ → Bool
is_known c =
    c == 101
    || (c == 102
        || (c == 105
            || (c == 110
                || (c == 112
                    || (c == 107
                        || (c == 113 || (c == 114 || (c == 83 || (c == 115 || c == 116)))))))))

-- The array that holds these strings.
pub holding : List (List ℕ) → Dynarray
holding [] = dynarray_init
holding (x ∷ xs) = record { array = some (x ∷ xs); len = suc (length xs) }

-- The flags behind an option.
abbrev next_flags : ℕ → ℕ → ℕ
next_flags c flags =
    if c == 101
    then bit_or flags 1
    else if c == 105
    then bit_or flags 2
    else if c == 110
    then bit_or flags 4
    else if c == 112
    then bit_or flags 8
    else flags

abbrev at : List (List ℕ) → ℕ → State
at strings flags = record { in_makefiles = holding strings; flags = flags; searched = [] }

holding-len : (strings : List (List ℕ)) → (holding strings).len ≡ length strings
unfolding holding
holding-len [] = refl
holding-len (x ∷ xs) = refl

release_mem-holding : (strings : List (List ℕ)) → release_mem (holding strings) ≡ done strings
unfolding release_mem holding
release_mem-holding [] = refl
release_mem-holding (x ∷ xs) = ground arith

-- What `main` does behind the options.
abbrev finish : Configured → Run (ℕ × List (List ℕ))
finish o = elim o [
  | fail s ↦ release_mem s.in_makefiles >>= λ strings. done (1, s.searched)
  | go_on s ↦ release_mem s.in_makefiles >>= λ strings.
      if s.in_makefiles.len == 0
      then done (1, s.searched ++ mf_paths)
      else done (0, s.searched ++ strings)
]

finish-holding :
    (strings : List (List ℕ)) (flags : ℕ)
    → finish (go_on (at strings flags))
      ≡ done (elim strings [ [] ↦ (1, mf_paths) | ◌∷◌ x xs ↦ (0, x ∷ xs) ])
finish-holding [] flags = rw (release_mem-holding []) (unfold holding in refl)
finish-holding (x ∷ xs) flags = rw (release_mem-holding (x ∷ xs)) (unfold holding in ground arith)

module _ (alloc : ℕ → ℕ → Bool) (enough : (k n : ℕ) → alloc k n ≡ true) where
  dynarray_append-holding :
      (strings : List (List ℕ)) (elem : List ℕ)
      → dynarray_append alloc (holding strings) elem ≡ (true, holding (strings ++ elem ∷ []))
  unfolding dynarray_append holding
  dynarray_append-holding [] elem = rw (enough 1 8) refl
  dynarray_append-holding (x ∷ xs) elem =
      rw (enough (2 * suc (length xs) + 1) (8 * (suc (length xs) + 1))) (
        ap (λ n. (true, record { array = some (x ∷ (xs ++ elem ∷ [])); len = n }))
          (omega (arith, length-append xs (elem ∷ []))))

  option-makefile :
      (optarg : List ℕ) (strings : List (List ℕ)) (flags : ℕ)
      → option alloc 102 optarg (at strings flags) ≡ go_on (at (strings ++ optarg ∷ []) flags)
  unfolding option add_makefile
  option-makefile optarg strings flags =
      rw
        (
          enough (2 * (holding strings).len) (length optarg + 1),
          dynarray_append-holding strings optarg,
        )
        refl

  option-other :
      (c : ℕ) (optarg : List ℕ) (strings : List (List ℕ)) (flags : ℕ)
      → is_known c ≡ true
      → c ≢ 102
      → option alloc c optarg (at strings flags) ≡ go_on (at strings (next_flags c flags))
  unfolding option set_flag is_ignored
  option-other c optarg strings flags known other = ground arith

  abbrev next : Configured → List (ℕ × List ℕ) → Configured
  next o options = elim o [ fail s' ↦ fail s' | go_on s' ↦ configure alloc options s' ]

  configure-operands :
      (options : List (ℕ × List ℕ)) (strings : List (List ℕ)) (flags : ℕ)
      → All (λ o. is_known o.0 ≡ true) options
      → (flags' : ℕ) × (configure alloc options (at strings flags)
          ≡ go_on (at (strings ++ operands options) flags'))
  unfolding configure operands
  configure-operands [] strings flags known =
      (flags, ap (λ xs. go_on (at xs flags)) (sym (append-nil strings)))
  configure-operands ((c, optarg) ∷ options) strings flags known = elim (Bool-cases (c == 102)) [
    | inl h ↦
        let is_f : c ≡ 102 = ground (arith, h) in
        let (flags', rest) = configure-operands options (strings ++ optarg ∷ []) flags known.1 in
        (
          flags',
          ap (λ c'. next (option alloc c' optarg (at strings flags)) options) is_f
              ∙ ap (λ o. next o options) (option-makefile optarg strings flags)
              ∙ rest
              ∙ rw h (
                  ap (λ xs. go_on (at xs flags'))
                    (append_assoc strings (optarg ∷ []) (operands options))),
        )
    | inr h ↦
        let (flags', rest) = configure-operands options strings (next_flags c flags) known.1 in
        (
          flags',
          ap (λ o. next o options)
                (option-other c optarg strings flags known.0 (λ e. ground (arith, h, e)))
              ∙ rest
              ∙ rw h refl,
        )
  ]

  -- If every allocation succeeds and all options are known, `make` returns; it prints the operands
  -- of `-f`, in order and with status 0, or without a `-f` the names ./makefile, ./Makefile,
  -- ./s.makefile, SCSS/s.makefile, ./s.Makefile and SCSS/s.Makefile, in this order, with status 1.
  pub main-operands :
      (getopt : Getopt) (argv : List (List ℕ))
      → All (λ o. is_known o.0 ≡ true) (getopt (codes "ef:hiknpqrSst") argv).options
      → main alloc getopt argv
        ≡ done (elim (operands (getopt (codes "ef:hiknpqrSst") argv).options) [
          | [] ↦ (
            1,
            codes "./makefile"
                ∷ codes "./Makefile"
                ∷ codes "./s.makefile"
                ∷ codes "SCSS/s.makefile"
                ∷ codes "./s.Makefile"
                ∷ codes "SCSS/s.Makefile"
                ∷ [],
          )
          | ◌∷◌ x xs ↦ (0, x ∷ xs)
        ])
  unfolding main holding mf_paths
  main-operands getopt argv known =
      let options = (getopt (codes "ef:hiknpqrSst") argv).options in
      let (flags', runs) = configure-operands options [] 0 known in
      ap finish runs ∙ finish-holding (operands options) flags'

option-full :
    (alloc : ℕ → ℕ → Bool) (optarg : List ℕ)
    → alloc 0 (length optarg + 1) ≡ true
    → alloc 1 8 ≡ false
    → option alloc 102 optarg (at [] 0)
      ≡ fail (record { in_makefiles = record { array = none; len = 1 }; flags = 0; searched = [] })
unfolding option add_makefile dynarray_append holding
option-full alloc optarg copied full = rw (copied, full) refl

-- If the first option is `-f` and its operand can be copied, but there is no memory for the array,
-- the exit is undefined: `release_mem` reads the element that was counted before it was stored.
pub main-release_mem :
    (alloc : ℕ → ℕ → Bool) (getopt : Getopt) (argv : List (List ℕ)) (optarg : List ℕ)
    (options : List (ℕ × List ℕ)) (i : ℕ)
    → getopt (codes "ef:hiknpqrSst") argv ≡ record { options = (102, optarg) ∷ options; optind = i }
    → alloc 0 (length optarg + 1) ≡ true
    → alloc 1 8 ≡ false
    → main alloc getopt argv ≡ undefined
unfolding main configure release_mem holding
main-release_mem alloc getopt argv optarg options i scan copied full =
    ap (λ found. finish (configure alloc found.options (at [] 0))) scan
    ∙ ap (λ o. finish (elim o [ fail s' ↦ fail s' | go_on s' ↦ configure alloc options s' ]))
        (option-full alloc optarg copied full)
