-- ===== src/Lex/Getline/Last.antt =====
-- The last line of a stream, which no line feed ends.
use ganos.Base.{
  ℕ, zero, suc, ◌+◌, ◌-◌, ◌*◌, ◌^◌, ◌≤◌, ◌<◌, ◌≡◌, refl, ap, ◌∙◌, sym, arith, List, [], ◌∷◌, ◌++◌,
  append_assoc, append-nil, Bool, Bool-cases, inl, inr, leb, true, false, Mem, some, length,
  length-append, All,
}
use ganos.Base.Run.{done}
use ganos.Getdelim.{Caller, Outcome}
use ganos.Getdelim.Line.{IsUsable, usable-fits}
use ganos.Stdio.{Fgets, IsFgets, block, text, put_text, place, text_of}
use ganos.Lex.Getline.{read_on, getline}
use ganos.Stdio.Text.{
  IsPlain, Starts, text-put_text, Starts-append, All-nonzero, All-no_newline, All-append, cut,
}
use ganos.Stdio.Progress.{piece}
use ganos.Lex.Getline.Pieces.{fetch, fetch-piece, fetch-full}
use ganos.Lex.Getline.Lines.{Lined}
use ganos.Lex.Getline.Same.{getline-fetch}

module _ (fgets : Fgets) (alloc : ℕ → Bool) where
  -- At the end of the stream the loop stops.
  read_on-Lined :
      (fuel limit : ℕ) (s : List ℕ) (m : Mem) (n : ℕ)
      → text n m 0 ≡ some s
      → 2 ≤ n
      → n ≤ limit
      → (o : Outcome) × (read_on fgets alloc (suc fuel) [] (block m n) n (length s) true ≡ done o)
        × Lined limit s [] o
  unfolding read_on
  read_on-Lined fuel limit s m n content room below = (
    _,
    refl,
    record { mem = m; size = n; returns = refl; content = content; room = room; grown = below },
  )

  fetch-nothing :
      (fuel : ℕ) (s : List ℕ) (m : Mem) (n : ℕ)
      → IsFgets fgets
      → text n m 0 ≡ some s
      → length s + 2 ≤ n
      → n < 2 ^ 31
      → fetch fgets alloc fuel s m n [] ≡ read_on fgets alloc fuel [] (block m n) n (length s) true
  unfolding place text_of
  fetch-nothing fuel s m n is content fits small =
      ground (arith, content, is.nothing (n - length s) (omega (arith, fits)))

  -- A piece that fills the block, before what the further calls read.
  fetch-front :
      (fuel limit : ℕ) (pre back s : List ℕ) (m : Mem) (n : ℕ)
      → IsFgets fgets
      → ((k : ℕ) → alloc k ≡ true)
      → Starts m 0 s
      → All IsPlain s
      → All IsPlain pre
      → length s + length pre + 1 ≡ n
      → 1 ≤ length pre
      → n + 12 < 2 ^ 31
      → (Starts (put_text m (length s) pre) 0 (s ++ pre)
          → text (n + 12) (put_text m (length s) pre) 0 ≡ some (s ++ pre)
          → (o : Outcome) × (fetch fgets alloc fuel
                (s ++ pre)
                (put_text m (length s) pre)
                (n + 12)
                back
              ≡ done o)
            × Lined limit ((s ++ pre) ++ back) [] o)
      → (o : Outcome) × (fetch fgets alloc (suc fuel) s m n (pre ++ back) ≡ done o)
        × Lined limit (s ++ (pre ++ back)) [] o
  fetch-front fuel limit pre back s m n is enough starts plain plain' full some_left small later =
      let nonzero = All-nonzero pre plain' in
      let (o, runs, lined) =
        later (Starts-append m 0 (length s) s pre starts (omega arith) nonzero)
          (text-put_text m (n + 12) s pre starts nonzero (omega (arith, full))) in
      (
        o,
        fetch-full fgets alloc fuel pre back s m n is enough starts plain plain' full some_left
              small
            ∙ runs,
        rw (sym (append_assoc s pre back)) lined,
      )

  -- If every allocation succeeds, the calls of `fgets` put what is left behind the text `s`.
  fetch-Last :
      (fuel limit : ℕ) (pre s : List ℕ) (m : Mem) (n : ℕ)
      → IsFgets fgets
      → ((k : ℕ) → alloc k ≡ true)
      → Starts m 0 s
      → All IsPlain s
      → All IsPlain pre
      → (pre ≡ [] → text n m 0 ≡ some s)
      → length s + 2 ≤ n
      → length pre < fuel
      → n + 12 * length pre ≤ limit
      → n + 12 * suc (length pre) < 2 ^ 31
      → (o : Outcome) × (fetch fgets alloc fuel s m n pre ≡ done o) × Lined limit (s ++ pre) [] o
  fetch-Last zero limit pre s m n is enough starts plain plain' content fits fuelled below small =
      absurd (omega (arith, fuelled))
  fetch-Last (suc fuel) limit [] s m n is enough starts plain plain' content fits fuelled below
        small =
      let (o, runs, lined) =
        read_on-Lined fuel limit s m n (content refl) (omega arith) (omega arith) in
      (
        o,
        fetch-nothing (suc fuel) s m n is (content refl) fits (omega arith) ∙ runs,
        rw (append-nil s) lined,
      )
  fetch-Last (suc fuel) limit (c ∷ cs) s m n is enough starts plain plain' content fits fuelled
        below small =
      elim (Bool-cases (leb (length s + length cs + 3) n)) [
        | inl short ↦
            let nonzero = All-nonzero (c ∷ cs) plain' in
            let (o, runs, lined) =
              read_on-Lined fuel limit (s ++ c ∷ cs) (put_text m (length s) (c ∷ cs)) n
                (text-put_text m n s (c ∷ cs) starts nonzero (ground (arith, short))) (omega arith)
                (omega arith) in
            (
              o,
              fetch-piece fgets alloc (suc fuel) (c ∷ cs) (c ∷ cs) [] s true m n
                    (is.ended (n - length s) c cs (All-no_newline (c ∷ cs) plain')
                      (ground (arith, short)))
                    starts nonzero (ground (arith, short)) (omega arith)
                  ∙ runs,
              lined,
            )
        | inr long ↦
            let b = cut (c ∷ cs) (n - length s - 1) (ground (arith, long)) plain' in
            let full = b.measure in
            let k : length (c ∷ cs) ≡ length b.front + length b.back =
              ap length b.joins ∙ length-append b.front b.back in
            rw b.joins (
              fetch-front fuel limit b.front b.back s m n is enough starts plain b.front_plain
                (omega (arith, full)) (omega (arith, full)) (omega arith)
                (λ starts' content'.
                  fetch-Last fuel limit b.back (s ++ b.front) (put_text m (length s) b.front)
                    (n + 12) is enough starts' (All-append s b.front plain b.front_plain)
                    b.back_plain (λ e. content') (omega (arith, full, length-append s b.front))
                    (omega (arith, k, full)) (omega (arith, k, full)) (omega (arith, k, full))))
      ]

  -- If `fgets` does what its documentation promises and every allocation succeeds, `getline` gives
  -- the last bytes of a stream, which no line feed ends, as a line.
  pub getline-Last :
      (garbage : Mem) (fuel c : ℕ) (cs : List ℕ) (a : Caller) (m : Mem) (n : ℕ)
      → IsFgets fgets
      → ((k : ℕ) → alloc k ≡ true)
      → IsUsable garbage a m n
      → All IsPlain (c ∷ cs)
      → length (c ∷ cs) < fuel
      → n + 12 * suc (length (c ∷ cs)) < 2 ^ 31
      → (o : Outcome) × (getline fgets alloc fuel false (c ∷ cs) a ≡ done o)
        × Lined (n + 12 * length (c ∷ cs)) (c ∷ cs) [] o
  getline-Last garbage fuel c cs a m n is enough usable plain fuelled small =
      let fits : 2 ≤ n = usable-fits alloc garbage enough a m n usable in
      let p = piece fgets is n c cs fits in
      let (m', first) =
        getline-fetch fgets alloc fuel n (c ∷ cs) p.cs p.left p.eof garbage m a enough usable
          (omega arith) p.reads in
      let (o, runs, lined) =
        fetch-Last fuel (n + 12 * length (c ∷ cs)) (c ∷ cs) [] m' n is enough (record {})
          (record {}) plain (λ e. cc) (omega arith) fuelled (omega arith) small in
      (o, first ∙ runs, lined)
