-- ===== src/Getdelim.antt =====
-- `getdelim` and `getline` of lib/libc/stdio/getline.c. The stream is the list of the bytes that
-- `fgetc` has still to return; a buffer is a block of memory with the size that was allocated.
pub mod Reads
pub mod Line
mod Tests
use ganos.Base.{
  ℕ, zero, suc, ◌+◌, ◌-◌, ◌%◌, ◌^◌, List, [], ◌∷◌, ◌==◌, ltb, if◌then◌else◌, Bool, true, false, Mem,
  store, Option, none, some, u64, u8,
}
use ganos.Base.Run.{Run, done, undefined, ◌>>=◌}

pub record Buffer : Type 0 where
  pub bytes : Mem
  pub size : ℕ

-- `*lineptr` and `*n`.
pub record Caller : Type 0 where
  pub line : Option Buffer
  pub n : ℕ

pub data Errno : Type 0 where
  unset einval enomem : Errno

-- What `getdelim` returns (`none` is -1) and leaves behind.
pub record Outcome : Type 0 where
  pub ret : Option ℕ
  pub caller : Caller
  pub stream : List ℕ
  pub errno : Errno

abbrev chunk_size : ℕ
chunk_size = 12

-- `(*lineptr)[i] = v`, outside the block undefined.
put : ℕ → ℕ → Caller → Run Caller
put i v a = elim a.line [
  | none ↦ undefined
  | some b ↦
      if ltb i b.size
      then done (record a { line = some (record b { bytes = store b.bytes i (u8 v) }) })
      else undefined
]

-- `malloc` and `realloc` give the block asked for if `alloc` says so; what a new block holds is
-- `garbage`.
module _ (alloc : ℕ → Bool) (garbage : Mem) where
  -- `none` is the return on ENOMEM, with the null pointer stored.
  grow : ℕ → Caller → Option Caller
  grow len a =
      if len == u64 (a.n + 2 ^ 64 - 2)
      then if alloc (u64 (a.n + chunk_size))
        then some (record {
          line = elim a.line [
            | none ↦ some (record { bytes = garbage; size = u64 (a.n + chunk_size) })
            | some b ↦ some (record b { size = u64 (a.n + chunk_size) })
          ];
          n = u64 (a.n + chunk_size);
        })
        else none
      else some a

  -- The `while` loop, entered with a `c` that is not the delimiter.
  pub read_from : ℕ → List ℕ → ℕ → Caller → Run Outcome
  unfolding put grow
  read_from delimiter [] len a = done (record {
    ret = (if len == 0 then none else some len);
    caller = a;
    stream = [];
    errno = unset;
  })
  read_from delimiter (c ∷ stream) len a = elim (grow len a) [
    | none ↦
        done (record {
          ret = none;
          caller = record a { line = none };
          stream = stream;
          errno = enomem;
        })
    | some a' ↦ put len c a' >>= λ a''.
        let rest = read_from delimiter stream (len + 1) a'' in
        if c == delimiter
        then (put (len + 1) 0 a'' >>= λ e.
            done (record { ret = some (len + 1); caller = e; stream = stream; errno = unset }))
        else rest
  ]

  -- `if (!*lineptr || !*n)` a first block is allocated.
  pub first_block : Caller → Option Caller
  first_block a =
      let fresh : Option Caller =
        if alloc chunk_size
        then some
            (record { line = some (record { bytes = garbage; size = chunk_size }); n = chunk_size })
        else none in
      elim a.line [ none ↦ fresh | some b ↦ if a.n == 0 then fresh else some a ]

  -- `null` says that `lineptr` or `n` is a null pointer. `c` starts as 0: for that delimiter the
  -- loop is never entered, and 0 is returned.
  pub getdelim : Bool → ℕ → List ℕ → Caller → Run Outcome
  unfolding first_block
  getdelim null delimiter stream a =
      if null
      then done (record { ret = none; caller = a; stream = stream; errno = einval })
      else elim (first_block a) [
        | none ↦ done (record {
          ret = none;
          caller = record a { line = none };
          stream = stream;
          errno = enomem;
        })
        | some a' ↦
            if delimiter == 0
            then done (record { ret = some 0; caller = a'; stream = stream; errno = unset })
            else read_from delimiter stream 0 a'
      ]

  unfoldable pub getline : Bool → List ℕ → Caller → Run Outcome
  getline null stream a = getdelim null 10 stream a
