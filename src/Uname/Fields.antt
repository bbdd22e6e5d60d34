-- ===== src/Uname/Fields.antt =====
-- The fields that `uname` prints.
use ganos.Base.{
  ap, Getopt, map, append-nil, ℕ, ◌≡◌, refl, ◌∙◌, arith, List, [], ◌∷◌, ◌++◌, ◌==◌, if◌then◌else◌,
  Bool, true, false, ◌||◌, codes,
}
use ganos.Uname.{
  no_flags, main, Utsname, Flags, Field, s, n, r, v, m, fields, is_set, put, value, any_flag,
  all_flags, options_loop, fields_loop, print,
}

pub selected : Flags → List Field → List Field
selected flags [] = []
selected flags (f ∷ fs) = if is_set f flags then f ∷ selected flags fs else selected flags fs

-- Texts with a space between two of them.
pub spaced : Utsname → List Field → List ℕ
spaced d [] = []
spaced d (f ∷ []) = value d f ++ []
spaced d (f ∷ g ∷ fs) = value d f ++ (codes " " ++ spaced d (g ∷ fs))

fields_loop_lem :
    (d : Utsname) (a b c e f : Bool)
    → let flags : Flags = record { mflag = e; nflag = b; rflag = c; sflag = a; vflag = f } in
      fields_loop d fields flags ≡ spaced d (selected flags fields)
unfolding fields_loop spaced selected
fields_loop_lem d true true true true true = refl
fields_loop_lem d true true true true false = refl
fields_loop_lem d true true true false true = refl
fields_loop_lem d true true true false false = refl
fields_loop_lem d true true false true true = refl
fields_loop_lem d true true false true false = refl
fields_loop_lem d true true false false true = refl
fields_loop_lem d true true false false false = refl
fields_loop_lem d true false true true true = refl
fields_loop_lem d true false true true false = refl
fields_loop_lem d true false true false true = refl
fields_loop_lem d true false true false false = refl
fields_loop_lem d true false false true true = refl
fields_loop_lem d true false false true false = refl
fields_loop_lem d true false false false true = refl
fields_loop_lem d true false false false false = refl
fields_loop_lem d false true true true true = refl
fields_loop_lem d false true true true false = refl
fields_loop_lem d false true true false true = refl
fields_loop_lem d false true true false false = refl
fields_loop_lem d false true false true true = refl
fields_loop_lem d false true false true false = refl
fields_loop_lem d false true false false true = refl
fields_loop_lem d false true false false false = refl
fields_loop_lem d false false true true true = refl
fields_loop_lem d false false true true false = refl
fields_loop_lem d false false true false true = refl
fields_loop_lem d false false true false false = refl
fields_loop_lem d false false false true true = refl
fields_loop_lem d false false false true false = refl
fields_loop_lem d false false false false true = refl
fields_loop_lem d false false false false false = refl

-- `uname` prints the field of every flag that is set, each once, in the order system, node,
-- release, version, machine, with single spaces between them and a line feed behind; without flags
-- it prints the name of the system.
pub print_lem :
    (d : Utsname) (flags : Flags)
    → print d flags
      ≡ (if any_flag flags then spaced d (selected flags fields) else d.sysname) ++ codes "\n"
unfolding print
print_lem d flags =
    ground (arith, fields_loop_lem d flags.sflag flags.nflag flags.rflag flags.mflag flags.vflag)

-- The letter of a flag, and whether an option asks for it: its own, or `-a`.
pub letter : Field → ℕ
letter m = 109
letter n = 110
letter r = 114
letter s = 115
letter v = 118

pub chosen : List (ℕ × List ℕ) → Field → Bool
chosen [] f = false
chosen ((c, arg) ∷ options) f = (c == 97 || c == letter f) || chosen options f

abbrev step : ℕ → Flags → Flags
step c flags =
    if c == 97
    then all_flags
    else if c == 109
    then put m true flags
    else if c == 110
    then put n true flags
    else if c == 114
    then put r true flags
    else if c == 115
    then put s true flags
    else if c == 118
    then put v true flags
    else flags

step_lem :
    (c : ℕ) (flags : Flags) (f : Field)
    → is_set f (step c flags) ≡ (is_set f flags || (c == 97 || c == letter f))
unfolding letter
step_lem c flags m = ground arith
step_lem c flags n = ground arith
step_lem c flags r = ground arith
step_lem c flags s = ground arith
step_lem c flags v = ground arith

-- The option loop sets, besides the flags that are set, exactly those that an option asks for by
-- its letter or by `-a`, whatever the other options.
pub options_loop_lem :
    (options : List (ℕ × List ℕ)) (flags : Flags) (f : Field)
    → is_set f (options_loop options flags) ≡ (is_set f flags || chosen options f)
unfolding options_loop chosen
options_loop_lem [] flags f = ground arith
options_loop_lem ((c, arg) ∷ options) flags f =
    options_loop_lem options (step c flags) f ∙ ground (arith, step_lem c flags f)

-- The fields that the options ask for, in the order of the table.
pub wanted : List (ℕ × List ℕ) → List Field → List Field
wanted options [] = []
wanted options (f ∷ fs) = if chosen options f then f ∷ wanted options fs else wanted options fs

no_flags-set : (f : Field) → is_set f no_flags ≡ false
no_flags-set m = refl
no_flags-set n = refl
no_flags-set r = refl
no_flags-set s = refl
no_flags-set v = refl

selected-wanted :
    (options : List (ℕ × List ℕ)) (fs : List Field)
    → selected (options_loop options no_flags) fs ≡ wanted options fs
unfolding selected wanted
selected-wanted options [] = refl
selected-wanted options (f ∷ fs) =
    ground (arith, options_loop_lem options no_flags f, no_flags-set f, selected-wanted options fs)

-- With no flag set the name of the system, otherwise the fields.
abbrev pub text_of : Utsname → List Field → List ℕ
text_of d [] = d.sysname
text_of d (f ∷ fs) = spaced d (f ∷ fs)

text_of-selected :
    (d : Utsname) (a b c e f : Bool)
    → let flags : Flags = record { mflag = e; nflag = b; rflag = c; sflag = a; vflag = f } in
      (if any_flag flags then spaced d (selected flags fields) else d.sysname)
      ≡ text_of d (selected flags fields)
unfolding selected
text_of-selected d true b c e f = ground arith
text_of-selected d false true c e f = ground arith
text_of-selected d false false true e f = ground arith
text_of-selected d false false false e true = ground arith
text_of-selected d false false false true false = refl
text_of-selected d false false false false false = refl

-- Whether the letter `c`, or `-a`, is among the options.
unfoldable pub asked : List (ℕ × List ℕ) → ℕ → Bool
asked [] c = false
asked ((c', arg) ∷ options) c = (c' == 97 || c' == c) || asked options c

-- The texts whose letters are asked for.
unfoldable pub answers : List (ℕ × List ℕ) → List (ℕ × List ℕ) → List (List ℕ)
answers options [] = []
answers options ((c, text) ∷ rows) =
    if asked options c then text ∷ answers options rows else answers options rows

-- Texts with a space between two of them.
unfoldable pub joined : List (List ℕ) → List ℕ
joined [] = []
joined (t ∷ []) = t
joined (t ∷ u ∷ ts) = t ++ 32 ∷ joined (u ∷ ts)

-- The texts, or the one that stands for none.
abbrev pub answer : List ℕ → List (List ℕ) → List ℕ
answer other [] = other
answer other (t ∷ ts) = joined (t ∷ ts)

abbrev row : Utsname → Field → ℕ × List ℕ
row d f = (letter f, value d f)

chosen-asked :
    (options : List (ℕ × List ℕ)) (f : Field) → chosen options f ≡ asked options (letter f)
unfolding chosen asked
chosen-asked [] f = refl
chosen-asked ((c, arg) ∷ options) f = ground (arith, chosen-asked options f)

wanted-answers :
    (d : Utsname) (options : List (ℕ × List ℕ)) (fs : List Field)
    → map (value d) (wanted options fs) ≡ answers options (map (row d) fs)
unfolding wanted answers
wanted-answers d options [] = refl
wanted-answers d options (f ∷ fs) =
    ground (arith, chosen-asked options f, wanted-answers d options fs)

spaced-joined : (d : Utsname) (fs : List Field) → spaced d fs ≡ joined (map (value d) fs)
unfolding spaced joined
spaced-joined d [] = refl
spaced-joined d (f ∷ []) = append-nil (value d f)
spaced-joined d (f ∷ g ∷ fs) = ap (λ t. value d f ++ 32 ∷ t) (spaced-joined d (g ∷ fs))

text_of-answer :
    (d : Utsname) (fs : List Field) → text_of d fs ≡ answer d.sysname (map (value d) fs)
text_of-answer d [] = refl
text_of-answer d (f ∷ fs) = spaced-joined d (f ∷ fs)

-- `uname` prints the fields that its options ask for, each once and in this order: the name of the
-- system for `s`, of the node for `n`, the release for `r`, the version for `v`, the machine for
-- `m`, all of them for `a`, with single spaces between them. If the options ask for none, it prints
-- the name of the system. A line feed follows, and unknown options change nothing.
pub main-wanted :
    (getopt : Getopt) (d : Utsname) (argv : List (List ℕ))
    → main getopt d argv
      ≡ answer d.sysname (
          answers (getopt (codes ":amnrsv") argv).options (
            (115, d.sysname)
            ∷ (110, d.nodename)
            ∷ (114, d.release)
            ∷ (118, d.version)
            ∷ (109, d.machine)
            ∷ []))
        ++ 10 ∷ []
unfolding main letter
main-wanted getopt d argv =
    let options = (getopt (codes ":amnrsv") argv).options in
    let flags = options_loop options no_flags in
    print_lem d flags
    ∙ ap (λ xs. xs ++ codes "\n")
        (text_of-selected d flags.sflag flags.nflag flags.rflag flags.mflag flags.vflag
          ∙ ap (text_of d) (selected-wanted options fields)
          ∙ text_of-answer d (wanted options fields)
          ∙ ap (answer d.sysname) (wanted-answers d options fields))
