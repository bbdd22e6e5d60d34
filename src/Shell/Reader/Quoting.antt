-- ===== src/Shell/Reader/Quoting.antt =====
-- Lines with their backslashes doubled come through the reader as they were.
use ganos.Base.{
  ==_iff, ℕ, ◌^◌, ◌<◌, ◌≡◌, ◌≢◌, refl, ap, ◌∙◌, arith, List, [], ◌∷◌, ◌++◌, append_assoc,
  append-nil, ◌==◌, if◌then◌else◌, Bool, true, false, Bool-cases, inl, inr, length, All,
}
use ganos.Base.Run.{done}
use ganos.Shell.Reader.{Event, prompt1, command, main}
use ganos.Shell.Reader.Lines.{unescaped, main_lem}

-- A line as a user types it: every backslash twice.
abbrev pub quote : List ℕ → List ℕ
quote [] = []
quote (c ∷ cs) = if c == 92 then 92 ∷ 92 ∷ quote cs else c ∷ quote cs

-- The lines typed, each ended by a line feed.
abbrev pub typed : List (List ℕ) → List ℕ
typed [] = []
typed (l ∷ ls) = quote l ++ 10 ∷ typed ls

-- Each line is processed, and the prompt printed again.
abbrev pub processed : List (List ℕ) → List Event
processed [] = []
processed (l ∷ ls) = command l ∷ prompt1 ∷ processed ls

unescaped-plain :
    (c : ℕ) (line input : List ℕ)
    → c ≢ 10
    → c ≢ 92
    → unescaped false line (c ∷ input) ≡ unescaped false (line ++ c ∷ []) input
unfolding unescaped
unescaped-plain c line input n b = ground arith

unescaped-backslash :
    (c : ℕ) (line input : List ℕ)
    → c ≡ 92
    → unescaped false line (92 ∷ 92 ∷ input) ≡ unescaped false (line ++ c ∷ []) input
unfolding unescaped
unescaped-backslash c line input e = rw e

unescaped-quote :
    (l line input : List ℕ)
    → All (λ c. c ≢ 10) l
    → unescaped false line (quote l ++ input) ≡ unescaped false (line ++ l) input
unescaped-quote [] line input h = rw append-nil
unescaped-quote (c ∷ cs) line input h =
    let rest : unescaped false (line ++ c ∷ []) (quote cs ++ input)
        ≡ unescaped false (line ++ c ∷ cs) input =
      unescaped-quote cs (line ++ c ∷ []) input h.1 ∙ rw append_assoc in
    elim (Bool-cases (c == 92)) [
      | inl e ↦ rw e (unescaped-backslash c line (quote cs ++ input) ((==_iff c 92).0 e) ∙ rest)
      | inr e ↦ rw e (unescaped-plain c line (quote cs ++ input) h.0 (ground arith) ∙ rest)
    ]

unescaped-line_feed :
    (line input : List ℕ)
    → unescaped false line (10 ∷ input) ≡ command line ∷ prompt1 ∷ unescaped false [] input
unfolding unescaped
unescaped-line_feed line input = refl

unescaped-typed :
    (ls : List (List ℕ))
    → All (λ l. All (λ c. c ≢ 10) l) ls
    → unescaped false [] (typed ls) ≡ processed ls
unescaped-typed [] h = unfold unescaped in refl
unescaped-typed (l ∷ ls) h =
    rw (unescaped-quote l [] (10 ∷ typed ls) h.0, unescaped-line_feed)
      (ap (λ es. command l ∷ prompt1 ∷ es) (unescaped-typed ls h.1))

-- If every allocation succeeds and the input is shorter than 2^32 bytes, the loop of `main` calls
-- `process` on the typed lines one by one, byte for byte, with a prompt behind each, until the input
-- ends. The lines have no line feeds and are typed with every backslash doubled. The calls are
-- recorded, not made: the theorem is on a session in which each of them returns.
pub main-typed :
    (alloc : ℕ → Bool) (ls : List (List ℕ))
    → ((n : ℕ) → alloc n ≡ true)
    → All (λ l. All (λ c. c ≢ 10) l) ls
    → length (typed ls) < 2 ^ 32
    → main alloc (typed ls) ≡ done (prompt1 ∷ processed ls)
main-typed alloc ls enough h small =
    main_lem alloc enough (typed ls) small ∙ ap (λ es. done (prompt1 ∷ es)) (unescaped-typed ls h)
