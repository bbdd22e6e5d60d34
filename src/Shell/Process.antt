-- ===== src/Shell/Process.antt =====
-- `process` of bin/sh/src/main.c: the line is split, and its command called or executed.
pub mod Argv
pub mod Spaced
use ganos.Base.{
  ℕ, List, [], ◌∷◌, ◌++◌, Bool, true, false, none, some, codes, Mem, c_string, map, Getopt,
}
use ganos.Base.Run.{Run, done, ◌>>=◌, in_bounds}
use ganos.Shell.World.{World, Chdir}
use ganos.Shell.Lookup.{builtin_lookup}
use ganos.Shell.Builtins.{call_builtin}
use ganos.Shell.Split.{split}

-- What `fork` returns: -1, 0 in the child, or the child's number in the parent.
pub data Fork : Type 0 where
  failed in_child in_parent : Fork

-- How a process leaves `process`: it returns `ret`; the child becomes another program, or exits.
pub data Outcome : Type 0 where
  returned : ℕ → World → Outcome
  executes : List (List ℕ) → World → Outcome
  exits : ℕ → World → Outcome

-- The child: `exec` says whether `execvp` or `execv` finds the program.
child : (List ℕ → Bool) → List ℕ → List (List ℕ) → World → Outcome
child exec command args w =
    let w' : World = record w {
      errors = w.errors ++ (codes "EXECUTING " ++ command) ∷ codes "PASSING ARGUMENTS" ∷ args;
    } in
    elim (exec command) [ true ↦ executes args w' | false ↦ exits 1 w' ]

-- The `switch` on `fork()`; the parent waits for the child.
spawn : (List ℕ → Bool) → Fork → List ℕ → List (List ℕ) → World → Outcome
unfolding child
spawn exec failed command args w =
    returned 0 (record w { errors = w.errors ++ codes "Failed to execute command" ∷ [] })
spawn exec in_child command args w = child exec command args w
spawn exec in_parent command args w = returned 1 w

module _ (getopt : Getopt) (chdir : Chdir) (exec : List ℕ → Bool) where
  pub dispatch : ℕ → Fork → List ℕ → List (List ℕ) → World → Run Outcome
  unfolding spawn
  dispatch fuel fork command args w = elim (builtin_lookup command) [
    | none ↦ done (spawn exec fork command args w)
    | some f ↦ call_builtin getopt chdir fuel f args w >>= λ (_, w'). done (returned 1 w')
  ]

  -- `buf` holds a line of `buf_sz` bytes, the NUL included. `alloc` says which allocations succeed,
  -- and `lookup` may run for `fuel` rounds.
  pub process : (ℕ → Bool) → ℕ → Fork → Mem → ℕ → World → Run Outcome
  process alloc fuel fork buf buf_sz w = do
    let w' : World = record w { errors = w.errors ++ codes "reached process(char *, size_t)" ∷ [] }
    p ← split alloc buf buf_sz
    start ← in_bounds p.command
    dispatch fuel fork (c_string buf_sz p.buf start) (map (c_string buf_sz p.buf) p.args) w'
