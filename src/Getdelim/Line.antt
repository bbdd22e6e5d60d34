-- ===== src/Getdelim/Line.antt =====
-- What `getdelim` gives its caller: a line, or what is left at the end of the stream.
use ganos.Base.{
  ◌∙◌, ℕ, ◌+◌, ◌*◌, ◌≤◌, ◌<◌, ◌^◌, ◌≡◌, ◌≢◌, List, [], ◌∷◌, ◌++◌, Bool, true, false, Mem, none,
  some, length, All, arith,
}
use ganos.Base.Run.{done}
use ganos.Getdelim.{Buffer, Caller, Outcome, first_block, read_from, getdelim, chunk_size}
use ganos.Getdelim.Reads.{block, Terminated, Ended, read_from-Terminated, read_from-Ended}

-- What a caller may pass: no block yet, a size of 0, or a block of the size it says.
pub data IsUsable (garbage : Mem) : Caller → Mem → ℕ → Type 0 where
  no_block : (n : ℕ) → IsUsable garbage (record { line = none; n = n }) garbage chunk_size
  no_size : (b : Buffer) → IsUsable garbage (record { line = some b; n = 0 }) garbage chunk_size
  has_block : (m : Mem) (n : ℕ) → 2 ≤ n → IsUsable garbage (block m n) m n

module _ (alloc : ℕ → Bool) (garbage : Mem) (enough : (n : ℕ) → alloc n ≡ true) where
  pub usable-fits : (a : Caller) (m : Mem) (n : ℕ) → IsUsable garbage a m n → 2 ≤ n
  usable-fits _ _ _ (no_block n) = omega arith
  usable-fits _ _ _ (no_size b) = omega arith
  usable-fits _ _ _ (has_block m n fits) = fits

  getdelim_reads :
      (delimiter : ℕ) (stream : List ℕ) (a : Caller) (m : Mem) (n : ℕ)
      → IsUsable garbage a m n
      → delimiter ≢ 0
      → getdelim alloc garbage false delimiter stream a
        ≡ read_from alloc garbage delimiter stream 0 (block m n)
  unfolding getdelim first_block
  getdelim_reads delimiter stream _ _ _ (no_block n) nonzero = ground (arith, enough chunk_size)
  getdelim_reads delimiter stream _ _ _ (no_size b) nonzero = ground (arith, enough chunk_size)
  getdelim_reads delimiter stream _ _ _ (has_block m n fits) nonzero = ground arith

  -- If every allocation succeeds and the buffer stays below 2^63 bytes, `getdelim` returns the
  -- number of bytes up to and with the first delimiter, whether the caller brings a block or not:
  -- they stand at the start of the block in order, a NUL behind them and inside the block, and the
  -- rest of the stream is left to read.
  pub getdelim-Terminated :
      (delimiter : ℕ) (pre stream : List ℕ) (a : Caller) (m : Mem) (n : ℕ)
      → IsUsable garbage a m n
      → delimiter ≢ 0
      → delimiter < 256
      → All (λ c. (c ≢ delimiter) × (c < 256)) pre
      → n + 12 * (length pre + 1) < 2 ^ 63
      → (o : Outcome) × (getdelim alloc garbage false delimiter (pre ++ delimiter ∷ stream) a
          ≡ done o)
        × Terminated m 0 (pre ++ delimiter ∷ []) stream o
  getdelim-Terminated delimiter pre stream a m n usable nonzero byte h small =
      let (o, runs, t) =
        read_from-Terminated alloc garbage enough delimiter pre stream 0 n m h byte
          (usable-fits a m n usable) (omega arith) in
      (o, getdelim_reads delimiter (pre ++ delimiter ∷ stream) a m n usable nonzero ∙ runs, t)

  -- At the end of a stream without the delimiter, if every allocation succeeds and the buffer stays
  -- below 2^63 bytes, `getdelim` returns the number of bytes that were left, and -1 if there were
  -- none; they stand at the start of the block in order, but the byte behind them is the one that
  -- the block held before: no NUL is written.
  pub getdelim-Ended :
      (delimiter : ℕ) (read : List ℕ) (a : Caller) (m : Mem) (n : ℕ)
      → IsUsable garbage a m n
      → delimiter ≢ 0
      → All (λ c. (c ≢ delimiter) × (c < 256)) read
      → n + 12 * (length read + 1) < 2 ^ 63
      → (o : Outcome) × (getdelim alloc garbage false delimiter read a ≡ done o) × Ended m 0 read o
  getdelim-Ended delimiter read a m n usable nonzero h small =
      let (o, runs, t) =
        read_from-Ended alloc garbage enough delimiter read 0 n m h (usable-fits a m n usable)
          (omega arith) in
      (o, getdelim_reads delimiter read a m n usable nonzero ∙ runs, t)
