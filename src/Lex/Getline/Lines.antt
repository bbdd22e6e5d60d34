-- ===== src/Lex/Getline/Lines.antt =====
-- The line that the pieces make, whatever block the caller brings.
use ganos.Base.{
  ℕ, zero, suc, ◌+◌, ◌-◌, ◌*◌, ◌^◌, ◌≤◌, ◌<◌, ◌≡◌, refl, ap, ◌∙◌, sym, arith, List, [], ◌∷◌, ◌++◌,
  append_assoc, Bool, Bool-cases, inl, inr, leb, true, false, Mem, some, length, length-append, All,
}
use ganos.Base.Run.{done}
use ganos.Getdelim.{Outcome}
use ganos.Stdio.{Fgets, IsFgets, block, text, put_text}
use ganos.Lex.Getline.{finished, read_on}
use ganos.Stdio.Text.{
  IsPlain, Starts, text-put_text, Starts-append, All-nonzero, All-nonzero-line, All-no_newline,
  All-append, cut,
}
use ganos.Lex.Getline.Pieces.{fetch, fetch-piece, fetch-full, read_on-newline}

-- The outcome of a line: its length is returned and the block, which has grown up to `limit` at
-- most, holds it as a C string.
pub record Lined (limit : ℕ) (s rest : List ℕ) (o : Outcome) : Type 0 where
  pub mem : Mem
  pub size : ℕ
  pub returns : o ≡ finished rest (block mem size) size (length s)
  pub content : text size mem 0 ≡ some s
  pub room : 2 ≤ size
  pub grown : size ≤ limit

module _ (fgets : Fgets) (alloc : ℕ → Bool) where
  fetch-newline :
      (fuel limit : ℕ) (pre rest s : List ℕ) (m : Mem) (n : ℕ)
      → IsFgets fgets
      → Starts m 0 s
      → All IsPlain s
      → All IsPlain pre
      → length s + length pre + 2 ≤ n
      → n ≤ limit
      → n < 2 ^ 31
      → (o : Outcome) × (fetch fgets alloc (suc fuel) s m n (pre ++ 10 ∷ rest) ≡ done o)
        × Lined limit ((s ++ pre) ++ 10 ∷ []) rest o
  fetch-newline fuel limit pre rest s m n is starts plain plain' fits below small =
      let cs = pre ++ 10 ∷ [] in
      let nonzero = All-nonzero-line pre plain' in
      let fits' : length s + length cs < n = omega (arith, length-append pre (10 ∷ [])) in
      let assoc : s ++ cs ≡ (s ++ pre) ++ 10 ∷ [] = sym (append_assoc s pre (10 ∷ [])) in
      let content = text-put_text m n s cs starts nonzero fits' ∙ ap some assoc in
      (
        _,
        fetch-piece fgets alloc (suc fuel) (pre ++ 10 ∷ rest) cs rest s false m n
              (is.newline (n - length s) pre rest (All-no_newline pre plain') (omega arith)) starts
              nonzero fits' small
            ∙ ap
                (λ line.
                  read_on fgets alloc (suc fuel) rest (block (put_text m (length s) cs) n) n
                    (length line) false)
                assoc
            ∙ read_on-newline fgets alloc fuel rest (s ++ pre) (put_text m (length s) cs) n content,
        record {
          mem = put_text m (length s) cs;
          size = n;
          returns = refl;
          content = content;
          room = omega arith;
          grown = below;
        },
      )

  -- The rest of a line behind its first piece.
  fetch-back :
      (fuel limit : ℕ) (pre back rest s : List ℕ) (m : Mem) (n : ℕ)
      → IsFgets fgets
      → ((k : ℕ) → alloc k ≡ true)
      → Starts m 0 s
      → All IsPlain s
      → All IsPlain pre
      → length s + length pre + 1 ≡ n
      → 1 ≤ length pre
      → n + 12 < 2 ^ 31
      → (o : Outcome) × (fetch fgets alloc fuel
            (s ++ pre)
            (put_text m (length s) pre)
            (n + 12)
            (back ++ 10 ∷ rest)
          ≡ done o)
        × Lined limit (((s ++ pre) ++ back) ++ 10 ∷ []) rest o
      → (o : Outcome) × (fetch fgets alloc (suc fuel) s m n ((pre ++ back) ++ 10 ∷ rest) ≡ done o)
        × Lined limit ((s ++ (pre ++ back)) ++ 10 ∷ []) rest o
  fetch-back fuel limit pre back rest s m n is enough starts plain plain' full some_left small
        (o, runs, lined) =
      (
        o,
        ap (fetch fgets alloc (suc fuel) s m n) (append_assoc pre back (10 ∷ rest))
            ∙ fetch-full fgets alloc fuel pre (back ++ 10 ∷ rest) s m n is enough starts plain
                plain' full some_left small
            ∙ runs,
        rw (sym (append_assoc s pre back)) lined,
      )

  -- If every allocation succeeds, the calls of `fgets` put the rest of a line behind the text `s`.
  pub fetch-Lined :
      (fuel limit : ℕ) (pre rest s : List ℕ) (m : Mem) (n : ℕ)
      → IsFgets fgets
      → ((k : ℕ) → alloc k ≡ true)
      → Starts m 0 s
      → All IsPlain s
      → All IsPlain pre
      → length s + 2 ≤ n
      → length pre < fuel
      → n + 12 * length pre ≤ limit
      → n + 12 * suc (length pre) < 2 ^ 31
      → (o : Outcome) × (fetch fgets alloc fuel s m n (pre ++ 10 ∷ rest) ≡ done o)
        × Lined limit ((s ++ pre) ++ 10 ∷ []) rest o
  fetch-Lined zero limit pre rest s m n is enough starts plain plain' fits fuelled below small =
      absurd (omega (arith, fuelled))
  fetch-Lined (suc fuel) limit pre rest s m n is enough starts plain plain' fits fuelled below
        small =
      elim (Bool-cases (leb (length s + length pre + 2) n)) [
        | inl short ↦
            fetch-newline fuel limit pre rest s m n is starts plain plain' (ground (arith, short))
              (omega arith) (omega arith)
        | inr long ↦
            let c = cut pre (n - length s - 1) (ground (arith, long)) plain' in
            let k : length pre ≡ length c.front + length c.back =
              ap length c.joins ∙ length-append c.front c.back in
            let later =
              fetch-Lined fuel limit c.back rest (s ++ c.front) (put_text m (length s) c.front)
                (n + 12) is enough
                (Starts-append m 0 (length s) s c.front starts (omega arith)
                  (All-nonzero c.front c.front_plain))
                (All-append s c.front plain c.front_plain) c.back_plain
                (omega (arith, length-append s c.front)) (omega arith) (omega arith)
                (omega arith) in
            rw c.joins (
              fetch-back fuel limit c.front c.back rest s m n is enough starts plain c.front_plain
                (ground (arith, c.measure)) (omega arith) (omega arith) later)
      ]
