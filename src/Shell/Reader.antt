-- ===== src/Shell/Reader.antt =====
-- The loop of `main` in bin/sh/src/main.c: bytes are read one at a time into a growing buffer, a
-- backslash escapes the next byte, and a line feed hands the line to `process`, whose calls are
-- events here.
pub mod Lines
pub mod Quoting
use ganos.Base.{
  ℕ, ◌+◌, ◌-◌, ◌^◌, List, [], ◌∷◌, ◌++◌, ◌==◌, ltb, if◌then◌else◌, Bool, true, false, Mem, store,
  bytes, u64,
}
use ganos.Base.Run.{Run, done, undefined, ◌>>=◌}

-- What the loop does to the outside: it prints a prompt, or calls `process` on a line.
pub data Event : Type 0 where
  prompt1 prompt2 : Event
  command : List ℕ → Event

-- The locals of `main`. `buf` has `buf_sz` bytes.
pub record Reader : Type 0 where
  pub buf : Mem
  pub i : ℕ
  pub buf_sz : ℕ
  pub escape : Bool
  pub out : List Event

-- `i--` on a `size_t`.
abbrev dec : ℕ → ℕ
dec i = u64 (i + 2 ^ 64 - 1)

abbrev emit : Reader → List Event → Reader
emit r es = record r { out = r.out ++ es }

-- The two `switch` statements, for the byte `c` that was read into `buf[i]`.
put_byte : ℕ → Reader → Reader
put_byte c r =
    if r.escape
    then if c == 10
      then emit (record r { buf = store r.buf r.i 0; i = dec r.i; escape = false }) (prompt2 ∷ [])
      else record r { escape = false }
    else if c == 10
    then emit (record r { buf = store r.buf r.i 0; i = 2 ^ 64 - 1 })
        (command (bytes r.buf 0 r.i) ∷ prompt1 ∷ [])
    else if c == 92
    then record r { buf = store r.buf r.i 0; i = dec r.i; escape = true }
    else r

-- `if (i == buf_sz) buf = realloc(buf, (buf_sz += 50))`: a failed `realloc` leaves a null pointer.
module _ (alloc : ℕ → Bool) where
  pub grow : Reader → Run Reader
  grow r =
      if r.i == r.buf_sz
      then if alloc (u64 (r.buf_sz + 50))
        then done (record r { buf_sz = u64 (r.buf_sz + 50) })
        else undefined
      else done r

  -- One round: `read(0, &buf[i], 1)` has written `c`.
  pub round : ℕ → Reader → Run Reader
  unfolding put_byte
  round c r =
      if ltb r.i r.buf_sz
      then (let r' = put_byte c (record r { buf = store r.buf r.i c }) in
          grow (record r' { i = u64 (r'.i + 1) }))
      else undefined

  pub read_loop : List ℕ → Reader → Run Reader
  read_loop [] r = done r
  read_loop (c ∷ input) r = round c r >>= read_loop input

  -- `main`: the first prompt, and the loop over all of the input. The calls of `process` are recorded
  -- and not made, so that this is `main` on a session in which each of them returns; `Session.run`
  -- makes them.
  pub main : List ℕ → Run (List Event)
  main input =
      if alloc 50
      then (read_loop input
            (record { buf = λ _. 0; i = 0; buf_sz = 50; escape = false; out = prompt1 ∷ [] })
          >>= λ r. done r.out)
      else undefined
