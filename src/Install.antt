-- ===== src/Install.antt =====
-- tools/alix-install/main.c: the device is named by `-d` or typed in, opened, and formatted.
-- `getopt`, `malloc`, `fgets`, `open` and PATH_MAX are parameters; `format`, which no file defines,
-- is recorded by its descriptor.
pub mod Typed
mod Tests
use ganos.Base.{
  ℕ, zero, suc, ◌+◌, List, [], ◌∷◌, ◌++◌, ◌==◌, ◌||◌, if◌then◌else◌, Bool, true, false, Mem, store,
  Option, none, some, codes, Getopt,
}
use ganos.Base.Run.{Run, done, undefined, ◌>>=◌}
use ganos.Getdelim.{Buffer}
use ganos.Stdio.{Fgets, place, text_of, block}

-- The globals; the names that were given to `open`, the descriptors given to `format` and `close`,
-- and what was written so far.
pub record State : Type 0 where
  pub dev_path_len : ℕ
  pub dev_path : Option Buffer
  pub fd : Option ℕ
  pub opened : List (List ℕ)
  pub formatted : List ℕ
  pub closed : List ℕ
  pub out : List ℕ
  pub err : List ℕ

abbrev pub start : State
start = record {
  dev_path_len = 0;
  dev_path = none;
  fd = none;
  opened = [];
  formatted = [];
  closed = [];
  out = [];
  err = [];
}

log : List ℕ → State → State
log message s = record s { err = s.err ++ message ++ 10 ∷ [] }

-- `for (c = dev_path; *c != '\n' && *c != '\0'; c++)`, with `n` bytes of the block left.
pub name_end : ℕ → Mem → ℕ → Run ℕ
name_end zero m c = undefined
name_end (suc n) m c =
    let rest = name_end n m (c + 1) in if m c == 10 || m c == 0 then done c else rest

-- `release`, at the exit.
release : State → State
release s = record s { dev_path = none }

pub leave : ℕ → State → Run (ℕ × State)
unfolding release
leave status s = done (status, release s)

-- `open` gives a descriptor or fails.
module _ (open_file : List ℕ → Option ℕ) where
  open_device : List ℕ → State → State
  open_device name s = record s { fd = open_file name; opened = s.opened ++ name ∷ [] }

  -- `configure`: `false` is the return of 0.
  pub configure : List ℕ → List (ℕ × List ℕ) → State → Bool × State
  unfolding open_device log
  configure name [] s = (true, s)
  configure name ((c, optarg) ∷ options) s =
      let with_device = configure name options (open_device optarg s) in
      let go_on = configure name options s in
      if c == 100
      then with_device
      else if c == 112
      then go_on
      else (false, log (codes "Usage: " ++ name ++ codes " [-h] [-d DEVICE] [-p PATH] [-a ARCH]") s)

  -- The end of `main`, with a device.
  format_device : ℕ → State → Run (ℕ × State)
  unfolding leave
  format_device fd s =
      leave 0 (record s { formatted = s.formatted ++ fd ∷ []; closed = s.closed ++ fd ∷ [] })

  -- `open(dev_path, …)`.
  open_typed : List ℕ → State → Run (ℕ × State)
  unfolding open_device format_device log leave
  open_typed name s =
      let s' = open_device name s in
      elim s'.fd [
        | none ↦ leave 1 (log (codes "Failed to open device file for modification") s')
        | some fd ↦ format_device fd s'
      ]

  -- `malloc` and `realloc` give the block asked for if `alloc` says so; what it holds is `garbage`.
  module _ (fgets : Fgets) (alloc : ℕ → Bool) (garbage : Mem) (path_max : ℕ) where
    -- The line in `b` is cut at its end and opened; `open` of a null pointer is undefined.
    pub open_line : Buffer → State → Run (ℕ × State)
    unfolding open_typed name_end
    open_line b s = name_end b.size b.bytes 0 >>= λ c.
        (let len = s.dev_path_len + c in
          let b' : Buffer = record { bytes = store b.bytes c 0; size = len + 1 } in
          if alloc (len + 1)
          then (text_of b' >>= λ name.
              open_typed name (record s { dev_path_len = len; dev_path = some b' }))
          else undefined)

    pub ask_device : List ℕ → State → Run (ℕ × State)
    unfolding open_line log leave
    ask_device stdin s =
        if alloc (path_max + 1)
        then (let s' = record s {
          dev_path = some (block garbage (path_max + 1));
          out = s.out ++ codes "Enter target device name: ";
        } in
            let got = fgets (path_max + 1) stdin in
            elim got.read [
              | none ↦ leave 1 (log (codes "Failed to read target device") s')
              | some read ↦
                  place 0 (some read) (block garbage (path_max + 1)) >>= λ b. open_line b s'
            ])
        else leave 1 (log (codes "Failed to allocate buffer for device path") s)

    pub main : Getopt → List ℕ → List ℕ → List (List ℕ) → Run (ℕ × State)
    unfolding configure ask_device format_device leave
    main getopt stdin name argv =
        let (ok, s) = configure name (getopt (codes "hd:p:a:") argv).options start in
        if ok
        then elim s.fd [ none ↦ ask_device stdin s | some fd ↦ format_device fd s ]
        else leave 1 s
