-- ===== src/Stdio.antt =====
-- The calls of `fgets` and of the string functions that programs make on a line buffer. `fgets`
-- itself is a parameter: what its documentation promises is `IsFgets`.
pub mod Text
pub mod Progress
pub mod Bytewise
use ganos.Base.{
  ℕ, zero, suc, ◌+◌, ◌≤◌, ◌<◌, ◌≡◌, ◌≢◌, List, [], ◌∷◌, ◌++◌, ◌==◌, ltb, if◌then◌else◌, Bool, true,
  false, Mem, store, Option, none, some, length, All,
}
use ganos.Base.Run.{Run, done, undefined, in_bounds}
use ganos.Getdelim.{Buffer}

-- What a call of `fgets` does: the bytes it stores before the NUL, or `none` when it returns a null
-- pointer and stores nothing; what is left of the stream; and `feof` afterwards.
pub record Fetched : Type 0 where
  pub read : Option (List ℕ)
  pub left : List ℕ
  pub eof : Bool

-- `fgets` by its size and the bytes that the stream has still to return.
abbrev pub Fgets : Type 0
Fgets = ℕ → List ℕ → Fetched

-- What the documentation of `fgets` promises for a size of at least two: it stops behind a line
-- feed, before the end of the block, or at the end of the stream.
pub record IsFgets (fgets : Fgets) : Type 0 where
  pub newline :
      (n : ℕ) (pre left : List ℕ)
      → All (λ c. c ≢ 10) pre
      → length pre + 2 ≤ n
      → fgets n (pre ++ 10 ∷ left)
        ≡ record { read = some (pre ++ 10 ∷ []); left = left; eof = false }
  pub full :
      (n : ℕ) (pre left : List ℕ)
      → All (λ c. c ≢ 10) pre
      → length pre + 1 ≡ n
      → 2 ≤ n
      → fgets n (pre ++ left) ≡ record { read = some pre; left = left; eof = false }
  pub ended :
      (n c : ℕ) (pre : List ℕ)
      → All (λ c. c ≢ 10) (c ∷ pre)
      → length pre + 2 < n
      → fgets n (c ∷ pre) ≡ record { read = some (c ∷ pre); left = []; eof = true }
  pub nothing : (n : ℕ) → 2 ≤ n → fgets n [] ≡ record { read = none; left = []; eof = true }

abbrev pub block : Mem → ℕ → Buffer
block m n = record { bytes = m; size = n }

-- The C string at `a`, if a NUL ends it within `n` bytes.
unfoldable pub text : ℕ → Mem → ℕ → Option (List ℕ)
text zero m a = none
text (suc n) m a =
    let rest = text n m (a + 1) in
    if m a == 0 then some [] else elim rest [ none ↦ none | some cs ↦ some (m a ∷ cs) ]

-- Bytes from `a` on and a NUL behind them.
unfoldable pub put_text : Mem → ℕ → List ℕ → Mem
put_text m a [] = store m a 0
put_text m a (c ∷ cs) = put_text (store m a c) (a + 1) cs

-- What `fgets` stores at `a`, inside the block.
unfoldable pub place : ℕ → Option (List ℕ) → Buffer → Run Buffer
unfolding put_text
place a none b = done b
place a (some read) b =
    if ltb (a + length read) b.size
    then done (record b { bytes = put_text b.bytes a read })
    else undefined

-- `strlen(*buffer)` is the length of this text.
unfoldable pub text_of : Buffer → Run (List ℕ)
unfolding text
text_of b = in_bounds (text b.size b.bytes 0)
