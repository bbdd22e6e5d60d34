-- ===== src/Shell/Session/Interpreter.antt =====
-- The shell as an interpreter of commands: what it promises for lines of words, without buffers,
-- quoting or splitting, and that `main` keeps it.
use ganos.Base.{
  ℕ, suc, ◌+◌, ◌^◌, ◌≤◌, ◌<◌, ◌≡◌, refl, sym, ap, ◌∙◌, arith, List, [], ◌∷◌, ◌++◌, map, Mem, length,
  length-append, All, codes, Getopt, bytes, Bool, true,
}
use ganos.Base.Run.{Run, done, undefined, out_of_fuel, ◌>>=◌}
use ganos.Shell.World.{World, Chdir}
use ganos.Shell.Split.Words.{split_lem}
use ganos.Shell.Process.{Fork, Outcome, returned, executes, exits, dispatch}
use ganos.Shell.Process.Argv.{Line}
use ganos.Shell.Process.Spaced.{IsWord, spaced, process-spaced}
use ganos.Shell.Reader.{Event, prompt1, command}
use ganos.Shell.Reader.Quoting.{quote, typed}
use ganos.Shell.Session.{Session, Result, goes_on, replaced, ended, after, call, loop, run}
use ganos.Shell.Session.Line.{IsText, Within, Calls, Calls-quote, length-bytes}

-- A command with its arguments, without the command itself.
abbrev pub Command : Type 0
Command = List ℕ × List (List ℕ)

abbrev pub line_of : Command → List ℕ
line_of (c, args) = spaced c args

-- What is seen of a session: its prompts and lines in order with the world they leave, or what the
-- process became, or its exit.
pub data View : Type 0 where
  waits : List Event → World → View
  became : List (List ℕ) → World → View
  left : ℕ → World → View

abbrev pub view : Result → View
view (goes_on s) = waits s.events s.world
view (replaced args w) = became args w
view (ended status w) = left status w

abbrev entered : World → World
entered w = record w { errors = w.errors ++ codes "reached process(char *, size_t)" ∷ [] }

abbrev pub IsCommand : Command → Type 0
IsCommand (c, args) = IsWord c × All IsWord args × All IsText (spaced c args)

quote-length : (l : List ℕ) → length l ≤ length (quote l)
quote-length [] = omega arith
quote-length (c ∷ l) = ground (arith, quote-length l)

module _ (getopt : Getopt) (chdir : Chdir) (exec : List ℕ → Bool) (fuel : ℕ) (fork : ℕ → Fork) where
  -- One command after the other, from the `n`-th on, until one of them leaves a child.
  unfoldable pub interpret : List Command → ℕ → List Event → World → Run View
  interpret [] n events w = done (waits events w)
  interpret ((c, args) ∷ commands) n events w =
      dispatch getopt chdir exec fuel (fork n) c (c ∷ args) (entered w) >>= λ o. elim o [
        | returned ret w' ↦
            interpret commands (n + 1) (events ++ command (spaced c args) ∷ prompt1 ∷ []) w'
        | executes args' w' ↦ done (became args' w')
        | exits status w' ↦ done (left status w')
      ]

  -- `process` on the line of a command dispatches it, and leaves some memory `m`.
  call_lem :
      (alloc : ℕ → Bool) (c : List ℕ) (args : List (List ℕ)) (s : Session)
      → ((n : ℕ) → alloc n ≡ true)
      → suc (length (spaced c args)) < 2 ^ 31
      → IsCommand (c, args)
      → Line s.reader.buf 0 (spaced c args)
      → (m : Mem) × (call getopt chdir exec fuel fork alloc (spaced c args) s ≡ (
          dispatch getopt chdir exec fuel (fork s.lines) c (c ∷ args) (entered s.world) >>= λ o.
          done (
            after getopt chdir exec fuel fork
              (record s { reader = record s.reader { buf = m } })
              o)))
  unfolding call
  call_lem alloc c args s enough small h line =
      let n = suc (length (spaced c args)) in
      let found = split_lem alloc enough s.reader.buf n small in
      let called =
        process-spaced getopt chdir exec alloc fuel (fork s.lines) s.reader.buf c args s.world h.0
          h.1 enough small line in
      (found.0.buf, rw (found.1, called) refl)

  module _ (alloc : ℕ → Bool) (enough : (n : ℕ) → alloc n ≡ true) where
    -- The rest of the loop behind a round.
    abbrev continue : List ℕ → Result → Run Result
    continue input result = elim result [
      | goes_on s' ↦ loop getopt chdir exec fuel fork alloc input s'
      | replaced args w ↦ done (replaced args w)
      | ended status w ↦ done (ended status w)
    ]

    abbrev shown : Run Result → Run View
    shown m = m >>= λ r. done (view r)

    shown-after :
        (d : Run Outcome) (input : List ℕ) (s : Session) (next : World → Run View)
        → ((w : World)
            → shown (
                loop getopt chdir exec fuel fork alloc input
                  (record s { world = w; lines = s.lines + 1 }))
              ≡ next w)
        → shown ((d >>= λ o. done (after getopt chdir exec fuel fork s o)) >>= continue input) ≡ (
            d >>= λ o. elim o [
              | returned ret w' ↦ next w'
              | executes args' w' ↦ done (became args' w')
              | exits status w' ↦ done (left status w')
            ])
    unfolding after
    shown-after undefined input s next h = refl
    shown-after out_of_fuel input s next h = refl
    shown-after (done (returned ret w)) input s next h = h w
    shown-after (done (executes args w)) input s next h = refl
    shown-after (done (exits status w)) input s next h = refl

    loop-interpret :
        (commands : List Command) (s : Session)
        → Within (length (typed (map line_of commands))) [] s.reader
        → length (typed (map line_of commands)) < 2 ^ 31
        → All IsCommand commands
        → shown (loop getopt chdir exec fuel fork alloc (typed (map line_of commands)) s)
          ≡ interpret commands s.lines s.events s.world
    unfolding interpret Calls
    loop-interpret [] s w small h = unfold loop in refl
    loop-interpret ((c, args) ∷ commands) s w small h =
        let (r, goes, within, stands) =
          Calls-quote getopt chdir exec fuel fork alloc enough (spaced c args) []
            (typed (map line_of commands)) s w h.0.2 (record {}) in
        let s' : Session = record s {
          reader = r;
          events = s.events ++ command (spaced c args) ∷ prompt1 ∷ [];
        } in
        let whole = length-append (quote (spaced c args)) (10 ∷ typed (map line_of commands)) in
        let shorter : length (spaced c args) ≤ length (quote (spaced c args)) =
          quote-length (spaced c args) in
        let (m, called) = call_lem alloc c args s' enough (omega (arith, shorter)) h.0 stands in
        let start : r.i ≡ 0 = sym (length-bytes r.buf 0 r.i) ∙ ap length within.holds in
        let again : Within (length (typed (map line_of commands))) [] (record r { buf = m }) =
          record {
            has_room = record { room = within.has_room.room; small = within.has_room.small };
            unquoted = within.unquoted;
            silent = within.silent;
            holds = ap (bytes m 0) start;
          } in
        ap shown goes
        ∙ ap (λ d. shown (d >>= continue (typed (map line_of commands)))) called
        ∙ shown-after
            (dispatch getopt chdir exec fuel (fork s.lines) c (c ∷ args) (entered s.world))
            (typed (map line_of commands)) (record s' { reader = record r { buf = m } })
            (interpret commands (s.lines + 1) s'.events)
            (λ w'.
              loop-interpret commands
                (record s' { reader = record r { buf = m }; world = w'; lines = s.lines + 1 }) again
                (omega (arith, whole)) h.1)

    -- If every allocation succeeds and the input is shorter than 2^31 bytes, `main` on commands
    -- typed one to a line, with single spaces and every backslash doubled, is the interpreter of
    -- the commands: each is given to `dispatch` with its words, in order and in the world that the
    -- one before it left, until the input ends, the process is a child that left the loop, or the
    -- behaviour of a command is undefined. What `dispatch` does with a command stands on both
    -- sides: the theorem is on reading, quoting, splitting and the order of the commands.
    pub run-interpret :
        (commands : List Command) (world : World)
        → All IsCommand commands
        → length (typed (map line_of commands)) < 2 ^ 31
        → (run getopt chdir exec fuel fork alloc (typed (map line_of commands)) world >>= λ r.
            done (view r))
          ≡ interpret commands 0 (prompt1 ∷ []) world
    unfolding run
    run-interpret commands world h small = rw (enough 50) (
        loop-interpret commands _
          (record {
            has_room = record { room = omega arith; small = omega arith };
            unquoted = refl;
            silent = refl;
            holds = refl;
          })
          small h)
