-- ===== src/Du.antt =====
-- usr/bin/du/src/main.c, which reads its options and does nothing else. `getopt` is a parameter:
-- its results for the option string and the arguments, each with what `optopt` then holds; what it
-- writes itself is left out.
use ganos.Base.{
  Bool-cases, inl, inr, ℕ, List, [], ◌∷◌, ◌++◌, ◌≡◌, refl, arith, append_assoc, append-nil, sym,
  Bool, ◌||◌, ◌==◌, if◌then◌else◌, codes,
}

-- The global and what was written to standard error.
record State : Type 0 where
  print_all : ℕ
  err : List ℕ

abbrev start : State
start = record { print_all = 1; err = [] }

-- The options without an effect.
has_no_effect : ℕ → Bool
has_no_effect c = c == 97 || (c == 107 || (c == 120 || (c == 72 || c == 76)))

unrecognized : ℕ → List ℕ
unrecognized optopt = codes "Unrecognized option: -" ++ optopt ∷ 10 ∷ []

-- The `switch` of `parse_args`.
option : ℕ → ℕ → State → State
unfolding has_no_effect unrecognized
option c optopt s =
    if c == 115
    then record s { print_all = 0 }
    else if has_no_effect c
    then s
    else record s { err = s.err ++ unrecognized optopt }

parse_args : List (ℕ × ℕ) → State → State
unfolding option
parse_args [] s = s
parse_args ((c, optopt) ∷ options) s = parse_args options (option c optopt s)

main : (List ℕ → List (List ℕ) → List (ℕ × ℕ)) → List (List ℕ) → ℕ × State
unfolding parse_args
main getopt argv = (0, parse_args (getopt (codes "askxHL") argv) start)

-- The messages for the options that are not known.
messages : List (ℕ × ℕ) → List ℕ
messages [] = []
messages ((c, optopt) ∷ options) =
    let rest = messages options in
    if c == 115 || has_no_effect c then rest else unrecognized optopt ++ rest

parse_args-messages :
    (options : List (ℕ × ℕ)) (s : State) → (parse_args options s).err ≡ s.err ++ messages options
unfolding parse_args option messages
parse_args-messages [] s = sym (append-nil s.err)
parse_args-messages ((c, optopt) ∷ options) s =
    let ih = parse_args-messages options (option c optopt s) in
    let assoc = append_assoc s.err (unrecognized optopt) (messages options) in
    elim (Bool-cases (c == 115)) [
      | inl here ↦ ground (arith, ih, here)
      | inr other ↦ elim (Bool-cases (has_no_effect c)) [
        | inl accepted ↦ ground (arith, ih, other, accepted)
        | inr unknown ↦ ground (arith, ih, other, unknown, assoc)
      ]
    ]

-- `du` succeeds whatever its options are, with one message for each that is not known.
main-messages :
    (getopt : List ℕ → List (List ℕ) → List (ℕ × ℕ)) (argv : List (List ℕ))
    → (s : State) × (main getopt argv ≡ (0, s)) × (s.err ≡ messages (getopt (codes "askxHL") argv))
unfolding main
main-messages getopt argv =
    let options = getopt (codes "askxHL") argv in
    (parse_args options start, refl, parse_args-messages options start)
