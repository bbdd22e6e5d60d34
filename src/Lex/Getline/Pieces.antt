-- ===== src/Lex/Getline/Pieces.antt =====
-- The line that the calls of `fgets` put together, piece by piece.
use ganos.Base.{
  ℕ, suc, ◌+◌, ◌-◌, ◌^◌, ◌≤◌, ◌<◌, ◌≡◌, ◌≢◌, refl, ap, ◌∙◌, arith, List, [], ◌∷◌, ◌++◌, Bool, true,
  false, Mem, some, length, length-append, All, u32,
}
use ganos.Base.Run.{Run, done, ◌>>=◌}
use ganos.Getdelim.{Outcome}
use ganos.Stdio.{Fetched, Fgets, IsFgets, block, text, put_text, place, text_of}
use ganos.Lex.Getline.{has_newline, finished, read_on}
use ganos.Stdio.Text.{
  place_text, IsPlain, Starts, text-put_text, All-nonzero, All-no_newline, All-append,
}

pub has_newline-line : (cs : List ℕ) → has_newline (cs ++ 10 ∷ []) ≡ true
unfolding has_newline
has_newline-line [] = refl
has_newline-line (c ∷ cs) = ground (arith, has_newline-line cs)

pub has_newline-plain : (cs : List ℕ) → All IsPlain cs → has_newline cs ≡ false
unfolding has_newline
has_newline-plain [] h = refl
has_newline-plain (c ∷ cs) h = ground (arith, h.0.0, has_newline-plain cs h.1)

module _ (fgets : Fgets) (alloc : ℕ → Bool) where
  -- What `fgets` returned is put behind the text `s`, and the loop goes on.
  abbrev resume : ℕ → List ℕ → Mem → ℕ → Fetched → Run Outcome
  resume fuel s m n got = place (length s) got.read (block m n) >>= λ b.
      text_of b >>= λ line. read_on fgets alloc fuel got.left b n (length line) got.eof

  abbrev pub fetch : ℕ → List ℕ → Mem → ℕ → List ℕ → Run Outcome
  fetch fuel s m n stream = resume fuel s m n (fgets (u32 (n + 2 ^ 64 - length s)) stream)

  pub read_on-newline :
      (fuel : ℕ) (stream s : List ℕ) (m : Mem) (n : ℕ)
      → text n m 0 ≡ some (s ++ 10 ∷ [])
      → read_on fgets alloc (suc fuel) stream (block m n) n (length (s ++ 10 ∷ [])) false
        ≡ done (finished stream (block m n) n (length (s ++ 10 ∷ [])))
  unfolding read_on text_of
  read_on-newline fuel stream s m n h = ground (arith, h, has_newline-line s)

  read_on-more :
      (fuel : ℕ) (stream s : List ℕ) (m : Mem) (n : ℕ)
      → ((k : ℕ) → alloc k ≡ true)
      → text n m 0 ≡ some s
      → All IsPlain s
      → length s + 1 ≡ n
      → n + 12 < 2 ^ 31
      → read_on fgets alloc (suc fuel) stream (block m n) n (length s) false
        ≡ fetch fuel s m (n + 12) stream
  unfolding read_on text_of
  read_on-more fuel stream s m n enough h plain full small =
      ground (arith, h, has_newline-plain s plain, enough (n + 12))

  -- A piece that `fgets` reads is put behind the text.
  pub fetch-piece :
      (fuel : ℕ) (stream cs left s : List ℕ) (eof : Bool) (m : Mem) (n : ℕ)
      → fgets (n - length s) stream ≡ record { read = some cs; left = left; eof = eof }
      → Starts m 0 s
      → All (λ c. c ≢ 0) cs
      → length s + length cs < n
      → n < 2 ^ 31
      → fetch fuel s m n stream
        ≡ read_on fgets alloc fuel left
            (block (put_text m (length s) cs) n)
            n
            (length (s ++ cs))
            eof
  fetch-piece fuel stream cs left s eof m n got starts nonzero fits small =
      let size : u32 (n + 2 ^ 64 - length s) ≡ n - length s = omega arith in
      ap (λ k. resume fuel s m n (fgets k stream)) size
      ∙ ap (resume fuel s m n) got
      ∙ place_text m n s cs (λ b line. read_on fgets alloc fuel left b n (length line) eof) starts
          nonzero fits

  -- A piece without a line feed fills the block, which grows for the next one.
  pub fetch-full :
      (fuel : ℕ) (pre left s : List ℕ) (m : Mem) (n : ℕ)
      → IsFgets fgets
      → ((k : ℕ) → alloc k ≡ true)
      → Starts m 0 s
      → All IsPlain s
      → All IsPlain pre
      → length s + length pre + 1 ≡ n
      → 1 ≤ length pre
      → n + 12 < 2 ^ 31
      → fetch (suc fuel) s m n (pre ++ left)
        ≡ fetch fuel (s ++ pre) (put_text m (length s) pre) (n + 12) left
  fetch-full fuel pre left s m n is enough starts plain plain' full some_left small =
      let nonzero = All-nonzero pre plain' in
      fetch-piece (suc fuel) (pre ++ left) pre left s false m n
        (is.full (n - length s) pre left (All-no_newline pre plain') (omega arith) (omega arith))
        starts nonzero (omega arith) (omega arith)
      ∙ read_on-more fuel left (s ++ pre) (put_text m (length s) pre) n enough
          (text-put_text m n s pre starts nonzero (omega arith)) (All-append s pre plain plain')
          (omega (arith, length-append s pre)) small
