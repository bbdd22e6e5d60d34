-- ===== src/Shell/Session/Line.antt =====
-- A typed line on its way through the loop of `main`: at its line feed it stands in the buffer, and
-- `process` is called on it.
use ganos.Base.{
  ℕ, zero, suc, ◌+◌, ◌≡◌, ◌≢◌, refl, sym, ap, ap₂, ◌∙◌, arith, List, [], ◌∷◌, ◌++◌, append_assoc,
  append-nil, ◌==◌, ==_iff, if◌then◌else◌, Bool, true, false, Bool-cases, inl, inr, Mem, store,
  bytes, length, All, Getopt,
}
use ganos.Base.Run.{Run, done, ◌>>=◌}
use ganos.Shell.World.{Chdir}
use ganos.Shell.Process.{Fork}
use ganos.Shell.Process.Argv.{Line}
use ganos.Shell.Reader.{Event, prompt1, command, Reader}
use ganos.Shell.Reader.Lines.{
  HasRoom, RoundTo, round-taken, round-backslash, round-ended, grow-HasRoom, bytes-store_end,
  line_kept, line_kept,
}
use ganos.Shell.Reader.Quoting.{quote}
use ganos.Shell.Session.{
  Session, Result, goes_on, replaced, ended, called_line, quiet, call, step, loop,
}

pub length-bytes : (m : Mem) (a n : ℕ) → length (bytes m a n) ≡ n
length-bytes m a zero = refl
length-bytes m a (suc n) = ap suc (length-bytes m (a + 1) n)

bytes-Line :
    (m : Mem) (a : ℕ) (l : List ℕ)
    → bytes m a (length l) ≡ l
    → m (a + length l) ≡ 0
    → All (λ c. c ≢ 0) l
    → Line m a l
bytes-Line m a [] same nul h = ap m (omega arith) ∙ nul
bytes-Line m a (c ∷ l) same nul h =
    let next : a + 1 ≡ suc a = omega arith in
    let at_end : suc a + length l ≡ a + suc (length l) = omega arith in
    (
      (cc),
      h.0,
      bytes-Line m (suc a) l (ap (λ k. bytes m k (length l)) (sym next) ∙ (cc)) (ap m at_end ∙ nul)
          h.1,
    )

-- In the middle of a line, `pre` of which was read, with room for `n` more bytes.
pub record Within (n : ℕ) (pre : List ℕ) (r : Reader) : Type 0 where
  pub has_room : HasRoom n r
  pub unquoted : r.escape ≡ false
  pub silent : r.out ≡ []
  pub holds : bytes r.buf 0 r.i ≡ pre

-- The bytes of a line are neither NULs nor line feeds.
abbrev pub IsText : ℕ → Type 0
IsText c = (c ≢ 0) × (c ≢ 10)

nonzero-snoc : (l : List ℕ) (c : ℕ) → All (λ x. x ≢ 0) l → c ≢ 0 → All (λ x. x ≢ 0) (l ++ c ∷ [])
nonzero-snoc [] c h h' = (h', record {})
nonzero-snoc (x ∷ l) c h h' = (h.0, nonzero-snoc l c h.1 h')

module _ (getopt : Getopt) (chdir : Chdir) (exec : List ℕ → Bool) (fuel : ℕ) (fork : ℕ → Fork)
    (alloc : ℕ → Bool) (enough : (n : ℕ) → alloc n ≡ true) where
  abbrev pub steps : ℕ → Session → Run Result
  steps = step getopt chdir exec fuel fork alloc

  abbrev pub loops : List ℕ → Session → Run Result
  loops = loop getopt chdir exec fuel fork alloc

  -- A round without an event leaves everything but the reader.
  step-quiet :
      (c n : ℕ) (s : Session) (next : Reader)
      → HasRoom (suc n) s.reader
      → s.reader.out ≡ []
      → RoundTo alloc c s.reader next []
      → (t : Reader) × (steps c s ≡ done (goes_on (record s { reader = t })))
        × HasRoom n t
        × (t.out ≡ [])
        × (t.buf ≡ next.buf)
        × (t.i ≡ next.i)
        × (t.escape ≡ next.escape)
  unfolding step called_line
  step-quiet c n s next h silent to =
      let (g, room) =
        grow-HasRoom alloc enough n next to.inside (omega (arith, h.small, to.same_size)) in
      let e : next.out ≡ [] = to.emits ∙ ap (λ es. es ++ []) silent in
      let t : Reader = quiet (record next {
        buf_sz = (if next.i == next.buf_sz then next.buf_sz + 50 else next.buf_sz);
      }) in
      (
        t,
        rw (to.runs, g, e, append-nil) refl,
        record { room = room.room; small = room.small },
        refl,
        refl,
        refl,
        refl,
      )

  -- `process` is called on `line` when the rest of it, `typed`, was read.
  unfoldable pub Calls : List ℕ → List ℕ → List ℕ → Session → Type 0
  Calls line typed input s =
      (r : Reader) × (loops (typed ++ 10 ∷ input) s ≡ (
        call getopt chdir exec fuel fork alloc line
          (record s { reader = r; events = s.events ++ command line ∷ prompt1 ∷ [] })
        >>= λ result. elim result [
          | goes_on s' ↦ loops input s'
          | replaced args w ↦ done (replaced args w)
          | ended status w ↦ done (ended status w)
        ]))
      × Within (length input) [] r
      × Line r.buf 0 line

  -- The line feed.
  Calls-line_feed :
      (input : List ℕ) (s : Session) (line : List ℕ)
      → Within (suc (length input)) line s.reader
      → All (λ c. c ≢ 0) line
      → Calls line [] input s
  unfolding loop step called_line Calls
  Calls-line_feed input s line w text =
      let r = s.reader in
      let es = command line ∷ prompt1 ∷ [] in
      let to = round-ended alloc r w.has_room.room (omega (arith, w.has_room.small)) w.unquoted in
      let buf = store (store r.buf r.i 10) r.i 0 in
      let next : Reader = record r {
        buf = buf;
        i = 0;
        out = r.out ++ command (bytes r.buf 0 r.i) ∷ prompt1 ∷ [];
      } in
      let (g, room) =
        grow-HasRoom alloc enough (length input) next (omega arith) w.has_room.small in
      let e : next.out ≡ es =
        ap₂ (λ (out : List Event) (l : List ℕ). out ++ command l ∷ prompt1 ∷ []) w.silent w.holds in
      let k : length line ≡ r.i = ap length (sym w.holds) ∙ length-bytes r.buf 0 r.i in
      let kept : bytes buf 0 (length line) ≡ line =
        ap (bytes buf 0) k
        ∙ line_kept (store r.buf r.i 10) r.i 0
        ∙ line_kept r.buf r.i 10
        ∙ w.holds in
      let nul : buf (0 + length line) ≡ 0 =
        let at : 0 + length line ≡ r.i = omega (arith, k) in rw at (ground arith) in
      (
        quiet (record next {
          buf_sz = (if next.i == next.buf_sz then next.buf_sz + 50 else next.buf_sz);
        }),
        rw (to.runs, g, e) refl,
        record {
          has_room = record { room = room.room; small = room.small };
          unquoted = w.unquoted;
          silent = refl;
          holds = refl;
        },
        bytes-Line buf 0 line kept nul text,
      )

  -- A byte that becomes part of the line.
  step-taken :
      (c n : ℕ) (s : Session) (pre : List ℕ)
      → HasRoom (suc n) s.reader
      → s.reader.out ≡ []
      → bytes s.reader.buf 0 s.reader.i ≡ pre
      → c ≢ 10
      → (s.reader.escape ≡ false → c ≢ 92)
      → (t : Reader) × (steps c s ≡ done (goes_on (record s { reader = t })))
        × Within n (pre ++ c ∷ []) t
  step-taken c n s pre h silent holds nl bs =
      let r = s.reader in
      let to = round-taken alloc c r h.room (omega (arith, h.small)) nl bs in
      let (t, runs, room, out, buf, i, escape) = step-quiet c n s _ h silent to in
      let kept : bytes t.buf 0 t.i ≡ pre ++ c ∷ [] =
        ap₂ (λ (m : Mem) (k : ℕ). bytes m 0 k) buf i
        ∙ bytes-store_end r.buf r.i c
        ∙ ap (λ cs. cs ++ c ∷ []) holds in
      (t, runs, record { has_room = room; unquoted = escape; silent = out; holds = kept })

  -- The first of two backslashes.
  step-backslash :
      (n : ℕ) (s : Session) (pre : List ℕ)
      → Within (suc n) pre s.reader
      → (t : Reader) × (steps 92 s ≡ done (goes_on (record s { reader = t })))
        × HasRoom n t
        × (t.out ≡ [])
        × (bytes t.buf 0 t.i ≡ pre)
        × (t.escape ≡ true)
  step-backslash n s pre w =
      let r = s.reader in
      let h = w.has_room in
      let to = round-backslash alloc r h.room (omega (arith, h.small)) w.unquoted in
      let (t, runs, room, out, buf, i, escape) = step-quiet 92 n s _ h w.silent to in
      let kept : bytes t.buf 0 t.i ≡ pre =
        ap₂ (λ (m : Mem) (k : ℕ). bytes m 0 k) buf i
        ∙ line_kept (store r.buf r.i 92) r.i 0
        ∙ line_kept r.buf r.i 92
        ∙ w.holds in
      (t, runs, room, out, kept, escape)

  Calls-step :
      (c : ℕ) (line typed input : List ℕ) (s : Session) (t : Reader)
      → steps c s ≡ done (goes_on (record s { reader = t }))
      → Calls line typed input (record s { reader = t })
      → Calls line (c ∷ typed) input s
  unfolding loop Calls
  Calls-step c line typed input s t runs (x, goes, within, stands) =
      (x, rw runs goes, within, stands)

  Calls-plain :
      (c : ℕ) (pre line typed input : List ℕ) (s : Session)
      → Within (suc (length (typed ++ 10 ∷ input))) pre s.reader
      → c ≢ 10
      → c ≢ 92
      → ((t : Reader)
          → Within (length (typed ++ 10 ∷ input)) (pre ++ c ∷ []) t
          → Calls line typed input (record s { reader = t }))
      → Calls line (c ∷ typed) input s
  Calls-plain c pre line typed input s w nl bs later =
      let (t, runs, within) =
        step-taken c (length (typed ++ 10 ∷ input)) s pre w.has_room w.silent w.holds nl
          (λ _. bs) in
      Calls-step c line typed input s t runs (later t within)

  Calls-backslash :
      (pre line typed input : List ℕ) (s : Session)
      → Within (suc (suc (length (typed ++ 10 ∷ input)))) pre s.reader
      → ((t : Reader)
          → Within (length (typed ++ 10 ∷ input)) (pre ++ 92 ∷ []) t
          → Calls line typed input (record s { reader = t }))
      → Calls line (92 ∷ 92 ∷ typed) input s
  Calls-backslash pre line typed input s w later =
      let n = length (typed ++ 10 ∷ input) in
      let (t, runs, room, silent, holds, escape) = step-backslash (suc n) s pre w in
      let s' : Session = record s { reader = t } in
      let (t', runs', within) =
        step-taken 92 n s' pre room silent holds (omega arith) (λ e. absurd (cc)) in
      Calls-step 92 line (92 ∷ typed) input s t runs
        (Calls-step 92 line typed input s' t' runs' (later t' within))

  -- What is typed for `l` comes behind `pre`.
  pub Calls-quote :
      (l pre input : List ℕ) (s : Session)
      → Within (length (quote l ++ 10 ∷ input)) pre s.reader
      → All IsText l
      → All (λ c. c ≢ 0) pre
      → Calls (pre ++ l) (quote l) input s
  Calls-quote [] pre input s w text nonzero =
      rw (append-nil pre) (Calls-line_feed input s pre w nonzero)
  Calls-quote (c ∷ l) pre input s w text nonzero = elim (Bool-cases (c == 92)) [
    | inl bs ↦
        let e = (==_iff c 92).0 bs in
        let q : quote (c ∷ l) ≡ 92 ∷ 92 ∷ quote l = ground (arith, bs) in
        rw e (
          Calls-backslash pre (pre ++ 92 ∷ l) (quote l) input s (rw q at w) (λ t within.
            rw (append_assoc pre (92 ∷ []) l) at (
              Calls-quote l (pre ++ 92 ∷ []) input (record s { reader = t }) within text.1
                (nonzero-snoc pre 92 nonzero (omega arith)))))
    | inr other ↦
        let q : quote (c ∷ l) ≡ c ∷ quote l = ground (arith, other) in
        rw q (
          Calls-plain c pre (pre ++ c ∷ l) (quote l) input s (rw q at w) text.0.1
            (ground (arith, other))
            (λ t within. rw (append_assoc pre (c ∷ []) l) at (
              Calls-quote l (pre ++ c ∷ []) input (record s { reader = t }) within text.1
                (nonzero-snoc pre c nonzero text.0.0))))
  ]
