-- ===== src/Lex/Stream/Tests.antt =====
-- The program on a concrete file.
use ganos.Base.{
  ℕ, ◌+◌, ◌≡◌, refl, arith, List, [], ◌∷◌, ◌++◌, ◌==◌, Bool, Bool-cases, inl, inr, true, codes,
  Option, none, some, same, if◌then◌else◌, Getopt,
}
use ganos.Base.Run.{done}
use ganos.Stdio.Bytewise.{fgets_bytewise, bytewise-IsFgets}
use ganos.Lex.{State, start, parse, main, is_separator}
use ganos.Lex.Sections.{concat}
use ganos.Lex.Stream.{parse_fp}
use ganos.Lex.Stream.Lines.{split_lines}
use ganos.Lex.Stream.Main.{IsText, lines_if_any, main-split_lines}
use ganos.Lex.Stream.Sections.{IsLexFile, main-sections}

abbrev white : ℕ → Bool
white c = c == 10

abbrev always : ℕ → Bool
always n = true

abbrev line_of : List ℕ → List ℕ
line_of text = text ++ 10 ∷ []

abbrev definitions : List (List ℕ)
definitions = line_of (codes "D [0-9]") ∷ []

abbrev rules : List (List ℕ)
rules = line_of (codes "x y") ∷ []

abbrev subs : List (List ℕ)
subs = line_of (codes "int f();") ∷ line_of (codes "g()") ∷ []

abbrev separator : List ℕ
separator = line_of (codes "%%")

abbrev bytes_of_file : List ℕ
bytes_of_file = concat (definitions ++ separator ∷ (rules ++ separator ∷ subs))

abbrev scanner : List ℕ
scanner = codes "scan.l"

abbrev fopen : List ℕ → Option (List ℕ)
fopen name = if same name scanner then some bytes_of_file else none

file-IsText : IsText 40 bytes_of_file
file-IsText = record { bytes = omega arith; fuelled = omega arith; small = omega arith }

nothing-IsText : IsText 40 []
nothing-IsText = record { bytes = record {}; fuelled = omega arith; small = omega arith }

fopen-IsText : (name stream : List ℕ) → fopen name ≡ some stream → IsText 40 stream
fopen-IsText name stream opens = elim (Bool-cases (same name scanner)) [
  | inl is ↦ let e : bytes_of_file ≡ stream = ground (arith, is, opens) in rw (← e) file-IsText
  | inr other ↦ absurd (ground (arith, other, opens))
]

abbrev getopt : Getopt
getopt spec argv = record { options = (116, []) ∷ []; optind = 2 }

abbrev argv : List (List ℕ)
argv = codes "lex" ∷ codes "-t" ∷ scanner ∷ []

-- A last line without a line feed.
file_lines :
    split_lines (codes "%%\n%%\nint f();") ≡ codes "%%\n" ∷ codes "%%\n" ∷ codes "int f();" ∷ []
unfolding split_lines
file_lines = refl

main-split_lines_example :
    main (parse_fp white fgets_bytewise always 40) [] fopen getopt true [] argv start
    ≡ main
        (parse white)
        []
        (λ name. lines_if_any (fopen name))
        getopt
        true
        (split_lines [])
        argv
        start
main-split_lines_example =
    main-split_lines white fgets_bytewise always bytewise-IsFgets (λ k. refl) 40 fopen fopen-IsText
      getopt true [] argv start nothing-IsText

file-IsLexFile : IsLexFile white definitions rules subs separator separator
unfolding is_separator
file-IsLexFile = record {
  definitions_plain = (refl, record {});
  rules_plain = (refl, record {});
  subs_plain = (refl, (refl, record {}));
  first_separates = refl;
  second_separates = refl;
  lines = (
    (codes "D [0-9]", refl, omega arith),
    (
      (codes "%%", refl, omega arith),
      (
        (codes "x y", refl, omega arith),
        (
          (codes "%%", refl, omega arith),
          ((codes "int f();", refl, omega arith), ((codes "g()", refl, omega arith), record {})),
        ),
      ),
    ),
  );
}

main-sections_example :
    (s' : State) × (main
        (parse_fp white fgets_bytewise always 40)
        []
        fopen
        getopt
        true
        []
        argv
        start
      ≡ done (true, s'))
    × (s'.out ≡ concat subs)
    × (s'.line ≡ 1 + 6)
main-sections_example =
    main-sections white fgets_bytewise always bytewise-IsFgets (λ k. refl) 40 fopen fopen-IsText
      getopt true [] argv 2 scanner definitions rules subs separator separator nothing-IsText
      (inl refl) refl refl file-IsLexFile refl
