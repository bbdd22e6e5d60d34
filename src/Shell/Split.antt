-- ===== src/Shell/Split.antt =====
-- The loop of `process` in bin/sh/src/main.c: a line in memory is cut into words in place.
pub mod Words
use ganos.Base.{
  ℕ, zero, suc, ◌+◌, ◌-◌, ◌*◌, ◌^◌, List, [], ◌∷◌, ◌++◌, ◌==◌, ltb, if◌then◌else◌, Bool, true,
  false, ◌||◌, Mem, store, Option, none, some, length, count_up,
}
use ganos.Base.Run.{Run, done, undefined, ◌>>=◌}

-- The locals of the loop. `args` are the first `argc` entries, as offsets into `buf`; the other
-- entries of the array of `args_sz` are null pointers.
pub record Splitter : Type 0 where
  pub buf : Mem
  pub command : Option ℕ
  pub args : List ℕ
  pub args_sz : ℕ
  pub newarg : Bool

abbrev pub is_blank : ℕ → Bool
is_blank c = c == 32 || c == 9

-- `args[argc++] = &buf[i]`, which must lie inside the array.
add_arg : ℕ → Splitter → Run Splitter
add_arg i p =
    if ltb (length p.args) p.args_sz then done (record p { args = p.args ++ i ∷ [] }) else undefined

-- `i++` on an `int`.
next_index : ℕ → Run ℕ
next_index i = if ltb (i + 1) (2 ^ 31) then done (i + 1) else undefined

-- The body of the loop before the start of the command.
first_byte : ℕ → Splitter → Run Splitter
first_byte i p = if is_blank (p.buf i) then done p else add_arg i (record p { command = some i })

-- `alloc` says which sizes `malloc` and `realloc` can give. The results of both are written to
-- without a test, so that a null pointer is dereferenced.
module _ (alloc : ℕ → Bool) where
  -- `if (argc == args_sz - 1)` the array grows by three entries, which are cleared.
  grow_args : Splitter → Run Splitter
  grow_args p =
      if length p.args == p.args_sz - 1
      then if alloc (8 * (p.args_sz + 3))
        then done (record p { args_sz = p.args_sz + 3 })
        else undefined
      else done p

  -- The body of the loop behind the start of the command.
  later_byte : ℕ → Splitter → Run Splitter
  later_byte i p =
      if is_blank (p.buf i)
      then done (record p { buf = store p.buf i 0; newarg = true })
      else (grow_args p >>= λ q.
          if q.newarg then (add_arg i q >>= λ q'. done (record q' { newarg = false })) else done q)

  pub split_byte : ℕ → Splitter → Run Splitter
  unfolding add_arg grow_args first_byte later_byte
  split_byte i p = elim p.command [ none ↦ first_byte i p | some c ↦ later_byte i p ]

  -- `for (i = 0; i < buf_sz; i++)`, with `n` rounds left.
  split_from : ℕ → ℕ → Splitter → Run Splitter
  unfolding next_index
  split_from zero i p = done p
  split_from (suc n) i p = split_byte i p >>= λ p'. next_index i >>= λ j. split_from n j p'

  -- The array `args` is allocated first. That of `envs` has no entries and is not used.
  pub split : Mem → ℕ → Run Splitter
  unfolding split_from
  split buf buf_sz =
      if alloc (8 * 3)
      then split_from buf_sz 0
          (record { buf = buf; command = none; args = []; args_sz = 3; newarg = false })
      else undefined
