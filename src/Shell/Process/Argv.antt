-- ===== src/Shell/Process/Argv.antt =====
-- The argument vector that `process` makes of a line, as a function of the line.
use ganos.Base.{
  ◌^◌, ℕ, zero, suc, ◌+◌, ◌≤◌, ◌<◌, ◌≡◌, ◌≢◌, refl, sym, ap, ◌∙◌, arith, List, [], ◌∷◌, ◌++◌,
  append_assoc, append-nil, if◌then◌else◌, Bool, true, false, not, ◌&&◌, Bool-cases, inl, inr, Mem,
  none, some, length, map, c_string, get_or, codes, Getopt,
}
use ganos.Shell.World.{World, Chdir}
use ganos.Shell.Split.{is_blank}
use ganos.Shell.Split.Words.{behind_blank, starts, first_start, cut, split_lem}
use ganos.Shell.Process.{Fork, dispatch, process}

-- The bytes up to the first blank.
unfoldable pub word : List ℕ → List ℕ
word [] = []
word (c ∷ cs) = if is_blank c then [] else c ∷ word cs

-- The words of the rest of a line, `b` saying that it starts behind a blank. At the end of a line,
-- behind a blank, there is one more, empty word.
unfoldable pub words_from : Bool → List ℕ → List (List ℕ)
words_from b [] = if b then [] ∷ [] else []
words_from b (c ∷ cs) =
    if is_blank c
    then words_from true cs
    else if b
    then word (c ∷ cs) ∷ words_from false cs
    else words_from false cs

-- The line stands in memory from `k` on, with a NUL behind it.
abbrev pub Line : Mem → ℕ → List ℕ → Type 0
Line m k [] = m k ≡ 0
Line m k (c ∷ cs) = (m k ≡ c) × (c ≢ 0) × Line m (suc k) cs

-- Where the words of the rest start.
positions : Bool → ℕ → List ℕ → List ℕ
positions b k [] = if b then k ∷ [] else []
positions b k (c ∷ cs) =
    if not (is_blank c) && b
    then k ∷ positions false (suc k) cs
    else positions (is_blank c) (suc k) cs

starts-positions :
    (m : Mem) (k : ℕ) (cs : List ℕ)
    → Line m k cs
    → starts m (suc (k + length cs)) ≡ starts m k ++ positions (behind_blank m k) k cs
unfolding positions
starts-positions m k [] line =
    ap (λ t. starts m (suc t)) (let e : k + 0 ≡ k = omega arith in e)
    ∙ ground (arith, line, append-nil (starts m k))
starts-positions m k (c ∷ cs) line =
    let next : k + suc (length cs) ≡ suc k + length cs = omega arith in
    ap (λ t. starts m (suc t)) next
    ∙ starts-positions m (suc k) cs line.2
    ∙ ground (arith, line.0, append_assoc (starts m k) (k ∷ []) (positions false (suc k) cs))

-- The first word start is that of every later prefix.
first_start-later :
    (m : Mem) (k d c : ℕ) → first_start m k ≡ some c → first_start m (k + d) ≡ some c
first_start-later m k zero c h = ap (first_start m) (let e : k + 0 ≡ k = omega arith in e) ∙ h
first_start-later m k (suc d) c h =
    let next : k + suc d ≡ suc (k + d) = omega arith in
    ap (first_start m) next ∙ ground (arith, first_start-later m k d c h)

-- The memory behind the loop, from `buf`, with the command at `start`.
module _ (m buf : Mem) (n start size : ℕ) (here : first_start m n ≡ some start)
    (left : (k : ℕ) → buf k ≡ cut m n k) where
  cut_lem : (k : ℕ) → start ≤ k → k < n → buf k ≡ (if is_blank (m k) then 0 else m k)
  cut_lem k from inside = ground (arith, here, left k)

  c_string-word :
      (fuel k : ℕ) (cs : List ℕ)
      → Line m k cs
      → start ≤ k
      → k + length cs < n
      → length cs < fuel
      → c_string fuel buf k ≡ word cs
  unfolding word
  c_string-word zero k cs line from inside enough = absurd (omega arith)
  c_string-word (suc fuel) k [] line from inside enough =
      ground (arith, cut_lem k from (omega arith), line)
  c_string-word (suc fuel) k (c ∷ cs) line from inside enough =
      let rest : c_string fuel buf (k + 1) ≡ word cs =
        ap (c_string fuel buf) (let e : k + 1 ≡ suc k = omega arith in e)
        ∙ c_string-word fuel (suc k) cs line.2 (omega arith) (omega arith) (omega arith) in
      ground (arith, cut_lem k from (omega arith), line.0, line.1, rest)

  strings-words :
      (b : Bool) (k : ℕ) (cs : List ℕ)
      → Line m k cs
      → start ≤ k
      → k + length cs < n
      → length cs < size
      → map (c_string size buf) (positions b k cs) ≡ words_from b cs
  unfolding positions words_from word
  strings-words true k [] line from inside enough =
      ap (λ w. w ∷ []) (c_string-word size k [] line from inside enough)
  strings-words false k [] line from inside enough = refl
  strings-words b k (c ∷ cs) line from inside enough = ground (
    arith,
    c_string-word size k (c ∷ cs) line from inside enough,
    strings-words (is_blank c) (suc k) cs line.2 (omega arith) (omega arith) (omega arith),
    strings-words false (suc k) cs line.2 (omega arith) (omega arith) (omega arith),
    strings-words true (suc k) cs line.2 (omega arith) (omega arith) (omega arith),
  )

module _ (m buf : Mem) (n size : ℕ) (room : n ≤ size) (left : (k : ℕ) → buf k ≡ cut m n k) where
  -- What the splitting found is the first word and all words.
  abbrev Finds : List ℕ → ℕ → Type 0
  Finds cs k =
      (start : ℕ) × (first_start m n ≡ some start)
      × (c_string size buf start ≡ get_or (words_from true cs) 0 [])
      × (map (c_string size buf) (positions true k cs) ≡ words_from true cs)

  first_start-here :
      (k d : ℕ)
      → first_start m k ≡ none
      → behind_blank m k ≡ true
      → is_blank (m k) ≡ false
      → suc k + d ≡ n
      → first_start m n ≡ some k
  first_start-here k d before blank byte ends =
      ap (first_start m) (sym ends)
      ∙ first_start-later m (suc k) d k (ground (arith, before, blank, byte))

  leading :
      (k : ℕ) (cs : List ℕ)
      → Line m k cs
      → first_start m k ≡ none
      → behind_blank m k ≡ true
      → suc (k + length cs) ≡ n
      → Finds cs k
  unfolding words_from positions
  leading k [] line before blank ends =
      let here : first_start m n ≡ some k =
        first_start-here k 0 before blank (ground (arith, line)) (omega arith) in
      let string =
        c_string-word m buf n k size here left size k [] line (omega arith) (omega arith)
          (omega arith) in
      (k, here, unfold word in string, unfold word in ap (λ w. w ∷ []) string)
  leading k (c ∷ cs) line before blank ends = elim (Bool-cases (is_blank c)) [
    | inl b ↦
        let (start, here, head, all) =
          leading (suc k) cs line.2 (ground (arith, before, line.0, b)) (ground (arith, line.0, b))
            (omega arith) in
        (start, here, head ∙ ground (arith, b), ground (arith, b, all))
    | inr b ↦
        let here : first_start m n ≡ some k =
          first_start-here k (suc (length cs)) before blank (ground (arith, line.0, b))
            (omega arith) in
        let string =
          c_string-word m buf n k size here left size k (c ∷ cs) line (omega arith) (omega arith)
            (omega arith) in
        let later =
          strings-words m buf n k size here left false (suc k) cs line.2 (omega arith) (omega arith)
            (omega arith) in
        (k, here, ground (arith, b, string), ground (arith, b, string, later))
  ]

-- If every allocation succeeds, then for a line of less than 2^31 - 1 bytes that are not NUL
-- `process` returns what the command gets for the words of
-- the line: the first one is the command, and all are its arguments, in order. A line that ends
-- with a blank, or is empty, has an empty word at its end.
pub process-words :
    (getopt : Getopt) (chdir : Chdir) (exec : List ℕ → Bool) (alloc : ℕ → Bool) (fuel : ℕ)
    (fork : Fork) (m : Mem) (line : List ℕ) (w : World)
    → ((n : ℕ) → alloc n ≡ true)
    → suc (length line) < 2 ^ 31
    → Line m 0 line
    → process getopt chdir exec alloc fuel fork m (suc (length line)) w
      ≡ dispatch getopt chdir exec fuel fork
          (get_or (words_from true line) 0 [])
          (words_from true line)
          (record w { errors = w.errors ++ codes "reached process(char *, size_t)" ∷ [] })
unfolding process
process-words getopt chdir exec alloc fuel fork m line w enough small holds =
    let n = suc (length line) in
    let (p, runs, command, args, room, buf) = split_lem alloc enough m n small in
    let (start, here, head, all) =
      leading m p.buf n n (omega arith) buf 0 line holds refl refl (omega arith) in
    let found : p.command ≡ some start = command ∙ here in
    let list : map (c_string n p.buf) p.args ≡ words_from true line =
      ap (map (c_string n p.buf)) (
        args
        ∙ ap (λ k. starts m (suc k)) (let e : length line ≡ 0 + length line = omega arith in e)
        ∙ starts-positions m 0 line holds)
      ∙ all in
    rw (runs, found, head, list) refl
