-- ===== src/Ed/Ends.antt =====
-- How ed ends: after every piece of its input it prompts again, and the end of the input is its only
-- way out.

use ganos.Base.{
  ℕ, zero, suc, ◌<◌, ◌≡◌, refl, ap, ◌∙◌, sym, arith, List, [], ◌∷◌, ◌++◌, append_assoc, append-nil,
  ◌==◌, if◌then◌else◌, true, Mem, Option, none, some, codes, length, All, ◌⊎◌, inl, inr, Getopt,
  replicate,
}
use ganos.Base.Run.{Run, done}
use ganos.Stdio.{Fgets, IsFgets, place, block, put_text}
use ganos.Stdio.Progress.{pieces, Piece, piece}
use ganos.Ed.{State, start, configure, free_lines, release_buffer, run, main}

unfoldable pub repeated : ℕ → List ℕ → List ℕ
repeated zero text = []
repeated (suc n) text = text ++ repeated n text

-- The status is 1, and the prompt was written for each piece of the input, and once more.
pub record Ended (out prompt stdin : List ℕ) (r : Run (ℕ × State)) : Type 0 where
  pub final : State
  pub ends : r ≡ done (1, final)
  pub released : final.file_buffer ≡ none
  pub prompts : final.out ≡ out ++ repeated (suc (pieces 49 0 stdin)) prompt

-- Ready to prompt, with no line read in.
pub record IsReady (s : State) (prompt : List ℕ) : Type 0 where
  pub prompt_is : s.prompt ≡ some prompt
  pub lines : List (Option ℕ)
  pub lines_are : s.file_buffer ≡ some lines
  pub empty : s.file_buffer_size ≡ 0

-- The prompt that the options set.
unfoldable pub prompt_of : List (ℕ × List ℕ) → Option (List ℕ) → Option (List ℕ)
prompt_of [] prompt = prompt
prompt_of ((c, optarg) ∷ options) prompt =
    prompt_of options (if c == 112 then some optarg else prompt)

configure_lem :
    (name : List ℕ) (options : List (ℕ × List ℕ)) (s : State)
    → All (λ (c, optarg). (c ≡ 115) ⊎ (c ≡ 112)) options
    → configure name options s ≡ (true, record s { prompt = prompt_of options s.prompt })
unfolding configure prompt_of
configure_lem name [] s h = refl
configure_lem name ((c, optarg) ∷ options) s (inl plain, h) =
    ground (arith, plain, configure_lem name options s h)
configure_lem name ((c, optarg) ∷ options) s (inr set, h) =
    ground (arith, set, configure_lem name options (record s { prompt = some optarg }) h)

module _ (fgets : Fgets) (is : IsFgets fgets) where
  abbrev prompted : State → List ℕ → State
  prompted s prompt = record s { out = s.out ++ prompt }

  run-nothing :
      (fuel : ℕ) (m : Mem) (s : State) (prompt : List ℕ)
      → IsReady s prompt
      → Ended s.out prompt [] (run fgets (suc fuel) [] (block m 50) s)
  unfolding run release_buffer free_lines repeated pieces
  run-nothing fuel m s prompt ready = record {
    final = record (prompted s prompt) {
      freed = s.freed ++ [];
      file_buffer = none;
      err = s.err ++ codes "Failed to read from stdin" ++ 10 ∷ [];
    };
    ends =
        ground (arith, ready.prompt_is, ready.lines_are, ready.empty, is.nothing 50 (omega arith));
    released = refl;
    prompts = ap (λ cs. s.out ++ cs) (sym (append-nil prompt));
  }

  run-piece :
      (fuel c : ℕ) (stdin : List ℕ) (m : Mem) (s : State) (prompt : List ℕ)
      → s.prompt ≡ some prompt
      → (p : Piece fgets 50 (c ∷ stdin))
      → run fgets (suc fuel) (c ∷ stdin) (block m 50) s
        ≡ run fgets fuel p.left (block (put_text m 0 p.cs) 50) (prompted s prompt)
  unfolding run place
  run-piece fuel c stdin m s prompt h p = ground (arith, h, p.reads, p.fits)

  Ended-piece :
      (s : State) (prompt stdin left : List ℕ) (r : Run (ℕ × State))
      → pieces 49 0 stdin ≡ suc (pieces 49 0 left)
      → Ended (s.out ++ prompt) prompt left r
      → Ended s.out prompt stdin r
  unfolding repeated
  Ended-piece s prompt stdin left r counted e = record {
    final = e.final;
    ends = e.ends;
    released = e.released;
    prompts =
        e.prompts
        ∙ append_assoc s.out prompt (repeated (suc (pieces 49 0 left)) prompt)
        ∙ ap (λ n. s.out ++ repeated (suc n) prompt) (sym counted);
  }

  run-Ended :
      (fuel : ℕ) (stdin : List ℕ) (m : Mem) (s : State) (prompt : List ℕ)
      → IsReady s prompt
      → length stdin < fuel
      → Ended s.out prompt stdin (run fgets fuel stdin (block m 50) s)
  run-Ended zero stdin m s prompt ready fuelled = absurd (omega (arith, fuelled))
  run-Ended (suc fuel) [] m s prompt ready fuelled = run-nothing fuel m s prompt ready
  run-Ended (suc fuel) (c ∷ stdin) m s prompt ready fuelled =
      let p = piece fgets is 50 c stdin (omega arith) in
      let later =
        run-Ended fuel p.left (put_text m 0 p.cs) (prompted s prompt) prompt
          (record {
            prompt_is = ready.prompt_is;
            lines = ready.lines;
            lines_are = ready.lines_are;
            empty = ready.empty;
          })
          (omega (arith, p.shorter, fuelled)) in
      rw (run-piece fuel c stdin m s prompt ready.prompt_is p)
        (Ended-piece s prompt (c ∷ stdin) p.left _ p.counted later)

  -- If `fgets` does what its documentation promises, there is memory for the lines, and the options
  -- are `-s` and `-p` with a `-p` among them, ed ends on every input, with fuel for its bytes: the
  -- status is 1, the lines are freed, and standard output got the last prompt given once for each
  -- piece of the input and once more, and nothing else. A piece ends at its first line feed or with
  -- 49 bytes.
  pub main-Ended :
      (fuel : ℕ) (getopt : Getopt) (garbage : Mem) (stdin name prompt : List ℕ)
      (argv : List (List ℕ))
      → All (λ (c, optarg). (c ≡ 115) ⊎ (c ≡ 112)) (getopt (codes "hsp:") argv).options
      → prompt_of (getopt (codes "hsp:") argv).options none ≡ some prompt
      → length stdin < fuel
      → Ended [] prompt stdin (main fgets fuel getopt true garbage stdin name argv)
  unfolding main
  main-Ended fuel getopt garbage stdin name prompt argv known set fuelled =
      let options = (getopt (codes "hsp:") argv).options in
      let s = record start { prompt = some prompt; file_buffer = some (replicate 15 none) } in
      let configured : configure name options start
          ≡ (true, record start { prompt = some prompt }) =
        configure_lem name options start known
        ∙ ap (λ p. (true, record start { prompt = p })) set in
      rw configured (
        run-Ended fuel stdin garbage s prompt
          (record { prompt_is = refl; lines = replicate 15 none; lines_are = refl; empty = refl })
          fuelled)
