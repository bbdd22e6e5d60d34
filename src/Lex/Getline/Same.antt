-- ===== src/Lex/Getline/Same.antt =====
-- The `getline` of lex against the one of lib/libc on a line that ends.
use ganos.Base.{
  inl, inr, ℕ, suc, ◌+◌, ◌-◌, ◌*◌, ◌^◌, ◌≤◌, ◌<◌, ◌≡◌, refl, ap, ◌∙◌, arith, List, [], ◌∷◌, ◌++◌,
  append_assoc, Bool, Bool-cases, leb, true, false, Mem, Option, none, some, length, All, bytes,
}
use ganos.Base.Run.{done}
use ganos.Getdelim.{Buffer, Caller, Outcome, Errno, unset}
use ganos.Getdelim.Line.{IsUsable, no_block, no_size, has_block, usable-fits}
use ganos.Stdio.{Fgets, IsFgets, block, text}
use ganos.Lex.Getline.{getline}
use ganos.Stdio.Text.{IsPlain, All-no_newline, cut}
use ganos.Lex.Getline.Pieces.{fetch}
use ganos.Lex.Getline.Lines.{Lined, fetch-Lined}
use ganos.Getdelim

-- What a caller sees: the value returned, what is left to read, `errno`, and the line as a C string.
pub record Seen : Type 0 where
  pub ret : Option ℕ
  pub stream : List ℕ
  pub errno : Errno
  pub line : Option (List ℕ)

text_at : Option Buffer → Option (List ℕ)
text_at none = none
text_at (some b) = text b.size b.bytes 0

pub seen : Outcome → Seen
unfolding text_at
seen o = record { ret = o.ret; stream = o.stream; errno = o.errno; line = text_at o.caller.line }

abbrev pub seen_line : List ℕ → List ℕ → Seen
seen_line line rest = record {
  ret = some (length line);
  stream = rest;
  errno = unset;
  line = some line;
}

module _ (fgets : Fgets) (alloc : ℕ → Bool) where
  -- The first call of `fgets`, on a line that ends, reads a piece of it.
  first_piece :
      (n : ℕ) (pre rest : List ℕ)
      → IsFgets fgets
      → All IsPlain pre
      → 2 ≤ n
      → (cs : List ℕ) × (left : List ℕ) × (fgets n (pre ++ 10 ∷ rest)
          ≡ record { read = some cs; left = left; eof = false })
  first_piece n pre rest is plain fits = elim (Bool-cases (leb (length pre + 2) n)) [
    | inl short ↦ (
      pre ++ 10 ∷ [],
      rest,
      is.newline n pre rest (All-no_newline pre plain) (ground (arith, short)),
    )
    | inr long ↦
        let c = cut pre (n - 1) (ground (arith, long)) plain in
        let stream : pre ++ 10 ∷ rest ≡ c.front ++ (c.back ++ 10 ∷ rest) =
          ap (λ xs. xs ++ 10 ∷ rest) c.joins ∙ append_assoc c.front c.back (10 ∷ rest) in
        (
          c.front,
          c.back ++ 10 ∷ rest,
          ap (fgets n) stream
              ∙ is.full n c.front (c.back ++ 10 ∷ rest) (All-no_newline c.front c.front_plain)
                  (ground (arith, c.measure)) fits,
        )
  ]

  pub getline-fetch :
      (fuel n : ℕ) (stream cs left : List ℕ) (eof : Bool) (garbage m : Mem) (a : Caller)
      → ((k : ℕ) → alloc k ≡ true)
      → IsUsable garbage a m n
      → n < 2 ^ 31
      → fgets n stream ≡ record { read = some cs; left = left; eof = eof }
      → (m' : Mem) × (getline fgets alloc fuel false stream a
          ≡ fetch fgets alloc fuel [] m' n stream)
  unfolding getline
  getline-fetch fuel _ stream cs left eof _ _ _ enough (no_block n) small got =
      (λ k. 0, ground (arith, enough 12, got))
  getline-fetch fuel _ stream cs left eof _ _ _ enough (no_size b) small got =
      (λ k. 0, ground (arith, enough 12, got))
  getline-fetch fuel _ stream cs left eof _ _ _ enough (has_block m n fits) small got =
      (m, ground (arith, got))

  at_end : Buffer → ℕ → Outcome
  at_end b n = record {
    ret = none;
    caller = record { line = some b; n = n };
    stream = [];
    errno = unset;
  }

  -- At the end of the stream there is no line.
  pub getline-nothing :
      (fuel n : ℕ) (garbage m : Mem) (a : Caller)
      → IsFgets fgets
      → ((k : ℕ) → alloc k ≡ true)
      → IsUsable garbage a m n
      → n < 2 ^ 31
      → (o : Outcome) × (getline fgets alloc fuel false [] a ≡ done o) × (o.ret ≡ none)
  unfolding getline at_end
  getline-nothing fuel _ _ _ _ is enough (no_block n) small =
      (at_end (block (λ k. 0) 12) 12, ground (arith, enough 12, is.nothing 12), refl)
  getline-nothing fuel _ _ _ _ is enough (no_size b) small =
      (at_end (block (λ k. 0) 12) 12, ground (arith, enough 12, is.nothing 12), refl)
  getline-nothing fuel _ _ _ _ is enough (has_block m n fits) small =
      (at_end (block m n) n, ground (arith, is.nothing n fits), refl)

  module _ (garbage : Mem) (is : IsFgets fgets) (enough : (k : ℕ) → alloc k ≡ true) where
    pub getline-Lined :
        (fuel : ℕ) (pre rest : List ℕ) (a : Caller) (m : Mem) (n : ℕ)
        → IsUsable garbage a m n
        → All IsPlain pre
        → length pre < fuel
        → n + 12 * suc (length pre) < 2 ^ 31
        → (o : Outcome) × (getline fgets alloc fuel false (pre ++ 10 ∷ rest) a ≡ done o)
          × Lined (n + 12 * length pre) (pre ++ 10 ∷ []) rest o
    getline-Lined fuel pre rest a m n usable plain fuelled small =
        let fits : 2 ≤ n = usable-fits alloc garbage enough a m n usable in
        let (cs, left, got) = first_piece n pre rest is plain fits in
        let (m', first) =
          getline-fetch fuel n (pre ++ 10 ∷ rest) cs left false garbage m a enough usable
            (omega arith) got in
        let (o, runs, lined) =
          fetch-Lined fgets alloc fuel (n + 12 * length pre) pre rest [] m' n is enough (record {})
            (record {}) plain (omega arith) fuelled (omega arith) small in
        (o, first ∙ runs, lined)
