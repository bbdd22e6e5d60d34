-- ===== src/Shell/Session.antt =====
-- The whole of bin/sh/src/main.c: the loop of `main`, with `process` called on the buffer itself,
-- which it cuts into words in place.
pub mod Line
pub mod Interpreter
mod Tests
use ganos.Base.{
  if◌then◌else◌, ℕ, suc, ◌+◌, List, [], ◌∷◌, ◌++◌, Bool, false, Mem, Option, none, some, length,
  Getopt,
}
use ganos.Base.Run.{Run, done, undefined, ◌>>=◌}
use ganos.Shell.World.{World, Chdir}
use ganos.Shell.Split.{split}
use ganos.Shell.Reader.{Event, prompt1, prompt2, command, Reader, round}
use ganos.Shell.Process.{Fork, Outcome, returned, executes, exits, process}

-- `reader.out` has the events of the current round only; `events` has those before it. `lines`
-- counts the calls of `process`.
pub record Session : Type 0 where
  pub reader : Reader
  pub events : List Event
  pub world : World
  pub lines : ℕ

-- How a round ends: the loop goes on, or the process, which is then a child, leaves it.
pub data Result : Type 0 where
  goes_on : Session → Result
  replaced : List (List ℕ) → World → Result
  ended : ℕ → World → Result

-- The line that a round hands to `process`.
pub called_line : List Event → Option (List ℕ)
called_line [] = none
called_line (command line ∷ events) = some line
called_line (prompt1 ∷ events) = called_line events
called_line (prompt2 ∷ events) = called_line events

-- The next round starts with no events of its own.
abbrev pub quiet : Reader → Reader
quiet r = record r { out = [] }

-- `fork` gives what the call of `fork` returns for each line, and `fuel` bounds a search of PATH.
module _ (getopt : Getopt) (chdir : Chdir) (exec : List ℕ → Bool) (fuel : ℕ) (fork : ℕ → Fork) where
  -- What is left of the session behind the return of `process`.
  pub after : Session → Outcome → Result
  after s (returned ret w) = goes_on (record s { world = w; lines = s.lines + 1 })
  after s (executes args w) = replaced args w
  after s (exits status w) = ended status w

  module _ (alloc : ℕ → Bool) where
    -- `process(buf, i + 1)`: the loop of `process` leaves its cuts in the buffer.
    pub call : List ℕ → Session → Run Result
    unfolding after
    call line s = split alloc s.reader.buf (suc (length line)) >>= λ p.
        process getopt chdir exec alloc fuel (fork s.lines) s.reader.buf (suc (length line)) s.world
        >>= λ o. done (after (record s { reader = record s.reader { buf = p.buf } }) o)

    pub step : ℕ → Session → Run Result
    unfolding call called_line
    step c s = round alloc c s.reader >>= λ r.
        (let s' : Session = record s { reader = quiet r; events = s.events ++ r.out } in
          elim (called_line r.out) [ none ↦ done (goes_on s') | some line ↦ call line s' ])

    pub loop : List ℕ → Session → Run Result
    loop [] s = done (goes_on s)
    loop (c ∷ input) s = step c s >>= λ result. elim result [
      | goes_on s' ↦ loop input s'
      | replaced args w ↦ done (replaced args w)
      | ended status w ↦ done (ended status w)
    ]

    -- `main`, which finds the environment `world`.
    pub run : List ℕ → World → Run Result
    unfolding loop
    run input world =
        if alloc 50
        then loop input (record {
          reader = record { buf = λ _. 0; i = 0; buf_sz = 50; escape = false; out = [] };
          events = prompt1 ∷ [];
          world = world;
          lines = 0;
        })
        else undefined
