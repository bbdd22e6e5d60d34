-- ===== src/Install/Typed.antt =====
-- The device that is opened for a name that is typed in.
use ganos.Base.{
  ℕ, zero, suc, ◌+◌, ◌≤◌, ◌<◌, ◌≡◌, refl, ap, ◌∙◌, arith, List, [], ◌∷◌, ◌++◌, length-append,
  Option-cases, if◌then◌else◌, inl, inr, Bool, true, Mem, store, Option, none, some, codes, length,
  All, Getopt,
}
use ganos.Base.Run.{Run, done}
use ganos.Stdio.{Fgets, IsFgets, place, block, put_text, text, text_of}
use ganos.Stdio.Text.{
  IsPlain, Starts, put_text-Starts, text-Starts, All-nonzero-line, All-no_newline,
}
use ganos.Install.{
  State, start, name_end, log, release, leave, open_device, configure, format_device, open_typed,
  open_line, ask_device, main,
}

name_end_lem :
    (n : ℕ) (m : Mem) (a : ℕ) (pre : List ℕ)
    → Starts m a (pre ++ 10 ∷ [])
    → All IsPlain pre
    → length pre < n
    → name_end n m a ≡ done (a + length pre)
unfolding name_end
name_end_lem zero m a pre starts plain fits = absurd (omega (arith, fits))
name_end_lem (suc n) m a [] starts plain fits = ground (arith, starts.0)
name_end_lem (suc n) m a (c ∷ pre) starts plain fits = ground (
  arith,
  starts.0,
  plain.0.0,
  plain.0.1,
  name_end_lem n m (a + 1) pre starts.2 plain.1 (omega arith),
)

-- With a NUL stored behind it, the name before the line feed is the string.
Starts-cut :
    (m : Mem) (a b : ℕ) (pre : List ℕ)
    → Starts m a (pre ++ 10 ∷ [])
    → b ≡ a + length pre
    → Starts (store m b 0) a pre
Starts-cut m a b [] starts at_end = record {}
Starts-cut m a b (c ∷ pre) starts at_end = (
  ground (arith, starts.0, at_end),
  starts.1,
  Starts-cut m (a + 1) b pre starts.2 (at_end ∙ omega arith),
)

configure_lem :
    (open_file : List ℕ → Option ℕ) (name : List ℕ) (options : List (ℕ × List ℕ)) (s : State)
    → All (λ (c, optarg). c ≡ 112) options
    → configure open_file name options s ≡ (true, s)
unfolding configure
configure_lem open_file name [] s h = refl
configure_lem open_file name ((c, optarg) ∷ options) s h =
    ground (arith, h.0, configure_lem open_file name options s h.1)

module _ (open_file : List ℕ → Option ℕ) where
  -- How a run ends that gave one name to `open`.
  pub record Opened (name : List ℕ) (r : Run (ℕ × State)) : Type 0 where
    pub final : State
    pub ends : r ≡ done (elim (open_file name) [ none ↦ 1 | some fd ↦ 0 ], final)
    pub opened : final.opened ≡ name ∷ []
    pub formatted : final.formatted ≡ elim (open_file name) [ none ↦ [] | some fd ↦ fd ∷ [] ]
    pub closed : final.closed ≡ elim (open_file name) [ none ↦ [] | some fd ↦ fd ∷ [] ]
    pub freed : final.dev_path ≡ none

  open_typed-Opened :
      (name : List ℕ) (s : State)
      → s.opened ≡ []
      → s.formatted ≡ []
      → s.closed ≡ []
      → Opened name (open_typed open_file name s)
  unfolding open_typed open_device format_device log leave release
  open_typed-Opened name s opened formatted closed = elim (Option-cases (open_file name)) [
    | inl failed ↦ record {
      final = record s {
        fd = open_file name;
        opened = s.opened ++ name ∷ [];
        err = s.err ++ codes "Failed to open device file for modification" ++ 10 ∷ [];
        dev_path = none;
      };
      ends = ground (arith, failed);
      opened = rw opened refl;
      formatted = rw (failed, formatted) refl;
      closed = rw (failed, closed) refl;
      freed = refl;
    }
    | inr (fd, given) ↦ record {
      final = record s {
        fd = open_file name;
        opened = s.opened ++ name ∷ [];
        formatted = s.formatted ++ fd ∷ [];
        closed = s.closed ++ fd ∷ [];
        dev_path = none;
      };
      ends = ground (arith, given);
      opened = rw opened refl;
      formatted = rw (given, formatted) refl;
      closed = rw (given, closed) refl;
      freed = refl;
    }
  ]

  module _ (fgets : Fgets) (alloc : ℕ → Bool) (garbage : Mem) (path_max : ℕ) where
    open_line_lem :
        (m : Mem) (n : ℕ) (pre : List ℕ) (s : State)
        → ((k : ℕ) → alloc k ≡ true)
        → Starts m 0 (pre ++ 10 ∷ [])
        → All IsPlain pre
        → length pre < n
        → (s' : State) × (open_line open_file fgets alloc garbage path_max (block m n) s
            ≡ open_typed open_file pre s')
          × (s'.opened ≡ s.opened)
          × (s'.formatted ≡ s.formatted)
          × (s'.closed ≡ s.closed)
    unfolding open_line text_of
    open_line_lem m n pre s enough starts plain fits =
        let k = length pre in
        let end : name_end n m 0 ≡ done k =
          name_end_lem n m 0 pre starts plain fits ∙ ap done (omega arith) in
        let cut = Starts-cut m 0 k pre starts (omega arith) in
        let content : text (s.dev_path_len + k + 1) (store m k 0) 0 ≡ some pre =
          text-Starts (s.dev_path_len + k + 1) (store m k 0) 0 pre cut
            (let at : 0 + k ≡ k = omega arith in rw at (ground arith)) (omega arith) in
        (
          record s {
            dev_path_len = s.dev_path_len + k;
            dev_path = some (record { bytes = store m k 0; size = s.dev_path_len + k + 1 });
          },
          ground (arith, end, content, enough (s.dev_path_len + k + 1)),
          refl,
          refl,
          refl,
        )

    -- What is typed in stands in the block, with its line feed.
    ask_device_lem :
        (pre rest : List ℕ) (s : State)
        → IsFgets fgets
        → ((k : ℕ) → alloc k ≡ true)
        → All IsPlain pre
        → length pre + 1 ≤ path_max
        → ask_device open_file fgets alloc garbage path_max (pre ++ 10 ∷ rest) s
          ≡ open_line open_file fgets alloc garbage path_max
              (block (put_text garbage 0 (pre ++ 10 ∷ [])) (path_max + 1))
              (record s {
                dev_path = some (block garbage (path_max + 1));
                out = s.out ++ codes "Enter target device name: ";
              })
    unfolding ask_device place
    ask_device_lem pre rest s is enough plain fits =
        let got = is.newline (path_max + 1) pre rest (All-no_newline pre plain) (omega arith) in
        let inside : 0 + length (pre ++ 10 ∷ []) < path_max + 1 =
          omega (arith, length-append pre (10 ∷ [])) in
        ground (arith, enough (path_max + 1), got, inside)

    main-ask_device :
        (getopt : Getopt) (stdin name : List ℕ) (argv : List (List ℕ))
        → All (λ (c, optarg). c ≡ 112) (getopt (codes "hd:p:a:") argv).options
        → main open_file fgets alloc garbage path_max getopt stdin name argv
          ≡ ask_device open_file fgets alloc garbage path_max stdin start
    unfolding main
    main-ask_device getopt stdin name argv known =
        ap
          (λ (r : Bool × State).
            if r.0
            then elim r.1.fd [
              | none ↦ ask_device open_file fgets alloc garbage path_max stdin r.1
              | some fd ↦ format_device open_file fd r.1
            ]
            else leave 1 r.1)
          (configure_lem open_file name (getopt (codes "hd:p:a:") argv).options start known)

    -- If `fgets` does what its documentation promises, every allocation succeeds and no option but
    -- `-p` is given, then a name typed in without a NUL, that fits PATH_MAX with its line feed, is
    -- the one name given to `open`, without its line feed. If that succeeds the status is 0 and the
    -- descriptor is formatted and closed, else the status is 1 and nothing is; the name is freed.
    pub main-Opened :
        (getopt : Getopt) (pre rest name : List ℕ) (argv : List (List ℕ))
        → IsFgets fgets
        → ((k : ℕ) → alloc k ≡ true)
        → All (λ (c, optarg). c ≡ 112) (getopt (codes "hd:p:a:") argv).options
        → All IsPlain pre
        → length pre + 1 ≤ path_max
        → Opened pre
            (main open_file fgets alloc garbage path_max getopt (pre ++ 10 ∷ rest) name argv)
    main-Opened getopt pre rest name argv is enough known plain fits =
        let m = put_text garbage 0 (pre ++ 10 ∷ []) in
        let asked : State = record start {
          dev_path = some (block garbage (path_max + 1));
          out = codes "Enter target device name: ";
        } in
        let (s', runs, opened, formatted, closed) =
          open_line_lem m (path_max + 1) pre asked enough
            (put_text-Starts garbage 0 (pre ++ 10 ∷ []) (All-nonzero-line pre plain)) plain
            (omega arith) in
        rw (main-ask_device getopt (pre ++ 10 ∷ rest) name argv known) (
          rw (ask_device_lem pre rest start is enough plain fits)
            (rw runs (open_typed-Opened pre s' opened formatted closed)))
