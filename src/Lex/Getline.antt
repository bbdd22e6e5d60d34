-- ===== src/Lex/Getline.antt =====
-- The `getline` of usr/bin/lex/main.c, for a C library without one: the line is read in pieces by
-- `fgets`, a parameter. Callers, blocks and outcomes are those of the `getline` of lib/libc.
mod Pieces
pub mod Lines
pub mod Same
pub mod Last
mod Tests
use ganos.Base.{
  ℕ, zero, suc, ◌+◌, ◌-◌, ◌%◌, ◌^◌, List, [], ◌∷◌, ◌==◌, ltb, if◌then◌else◌, Bool, true, false,
  ◌||◌, Mem, store, Option, none, some, u64, u32, length,
}
use ganos.Base.Run.{Run, done, undefined, out_of_fuel, in_bounds, ◌>>=◌}
use ganos.Stdio.{Fgets, place, text_of}
use ganos.Getdelim.{Buffer, Caller, Outcome, unset, einval, enomem}

abbrev pub chunk_size : ℕ
chunk_size = 12

-- `strchr(*buffer, '\n')` as a test.
pub has_newline : List ℕ → Bool
has_newline [] = false
has_newline (c ∷ cs) = c == 10 || has_newline cs

unfoldable pub finished : List ℕ → Buffer → ℕ → ℕ → Outcome
finished stream b n len = record {
  ret = some len;
  caller = record { line = some b; n = n };
  stream = stream;
  errno = unset;
}

pub no_memory : List ℕ → ℕ → Outcome
no_memory stream n = record {
  ret = none;
  caller = record { line = none; n = n };
  stream = stream;
  errno = enomem;
}

-- `calloc` and `realloc` give the block asked for if `alloc` says so.
module _ (fgets : Fgets) (alloc : ℕ → Bool) where
  -- More room when the NUL is at the end of the block.
  pub enlarge : ℕ → Buffer → ℕ → Option (Buffer × ℕ)
  enlarge len b n =
      if u64 (n + 2 ^ 64 - len + 2 ^ 64 - 1) == 0
      then if alloc (u64 (n + chunk_size))
        then some (record b { size = u64 (n + chunk_size) }, u64 (n + chunk_size))
        else none
      else some (b, n)

  -- The loop behind the first `fgets`. `fgets` takes its size as an `int`.
  pub read_on : ℕ → List ℕ → Buffer → ℕ → ℕ → Bool → Run Outcome
  unfolding enlarge place text_of has_newline finished no_memory
  read_on zero stream b n len eof = out_of_fuel
  read_on (suc fuel) stream b n len true = done (finished stream b n len)
  read_on (suc fuel) stream b n len false = text_of b >>= λ line. elim (has_newline line) [
    | true ↦ done (finished stream b n len)
    | false ↦ elim (enlarge len b n) [
      | none ↦ done (no_memory stream (u64 (n + chunk_size)))
      | some (b', n') ↦
          let got = fgets (u32 (n' + 2 ^ 64 - len)) stream in
          place (length line) got.read b' >>= λ b''.
          text_of b'' >>= λ line'. read_on fuel got.left b'' n' (length line') got.eof
    ]
  ]

  -- `if (!*buffer || !*buffer_sz)` a first block of zeros is allocated.
  pub first_block : Caller → Option (Buffer × ℕ)
  first_block a =
      let fresh : Option (Buffer × ℕ) =
        if alloc chunk_size
        then some (record { bytes = λ k. 0; size = chunk_size }, chunk_size)
        else none in
      elim a.line [ none ↦ fresh | some b ↦ if a.n == 0 then fresh else some (b, a.n) ]

  -- `null` says that `buffer` or `buffer_sz` is a null pointer.
  pub getline : ℕ → Bool → List ℕ → Caller → Run Outcome
  unfolding first_block
  getline fuel true stream a =
      done (record { ret = none; caller = a; stream = stream; errno = einval })
  getline fuel false stream a = elim (first_block a) [
    | none ↦ done (no_memory stream chunk_size)
    | some (b, n) ↦
        let got = fgets (u32 n) stream in
        elim got.read [
          | none ↦ done (record {
            ret = none;
            caller = record { line = some b; n = n };
            stream = got.left;
            errno = unset;
          })
          | some read ↦ place 0 (some read) b >>= λ b'.
              text_of b' >>= λ line. read_on fuel got.left b' n (length line) got.eof
        ]
  ]
