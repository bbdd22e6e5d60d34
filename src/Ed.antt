-- ===== src/Ed.antt =====
-- bin/ed/src/main.c: the options and the loop that prompts and reads, up to the end of the input.
-- `getopt`, `calloc` and `fgets` are parameters.
pub mod Ends
mod Tests
use ganos.Base.{
  ℕ, zero, suc, ◌+◌, List, [], ◌∷◌, ◌++◌, ◌==◌, if◌then◌else◌, Bool, true, false, Mem, Option, none,
  some, codes, replicate, Getopt,
}
use ganos.Base.Run.{Run, done, undefined, out_of_fuel, ◌>>=◌}
use ganos.Getdelim.{Buffer}
use ganos.Stdio.{Fgets, place, block}

-- The globals that are used, the buffers that were freed, and what was written so far. A line of
-- `file_buffer` is its `buffer`, `none` for a null pointer.
pub record State : Type 0 where
  pub prompt : Option (List ℕ)
  pub file_buffer_size : ℕ
  pub file_buffer : Option (List (Option ℕ))
  pub freed : List (Option ℕ)
  pub out : List ℕ
  pub err : List ℕ

abbrev pub start : State
start = record {
  prompt = none;
  file_buffer_size = 0;
  file_buffer = none;
  freed = [];
  out = [];
  err = [];
}

abbrev input_size : ℕ
input_size = 50

usage : List ℕ → State → State
usage name s = record s {
  err = s.err ++ codes "Usage: " ++ name ++ codes " [-s] [-p PROMPT] [FILE]" ++ 10 ∷ [];
}

-- `configure`: `false` is the return of 0.
pub configure : List ℕ → List (ℕ × List ℕ) → State → Bool × State
unfolding usage
configure name [] s = (true, s)
configure name ((c, optarg) ∷ options) s =
    let go_on = configure name options s in
    let with_prompt = configure name options (record s { prompt = some optarg }) in
    if c == 115
    then go_on
    else if c == 112
    then with_prompt
    else if c == 63
    then (
      false,
      usage name (record s { err = s.err ++ codes "Unrecognized argument \"?\"" ++ 10 ∷ [] }),
    )
    else (false, usage name s)

-- `free(file_buffer[i].buffer)` for the first `n` lines.
free_lines : ℕ → List (Option ℕ) → Run (List (Option ℕ))
free_lines zero lines = done []
free_lines (suc n) [] = undefined
free_lines (suc n) (b ∷ lines) = free_lines n lines >>= λ rest. done (b ∷ rest)

pub release_buffer : State → Run State
unfolding free_lines
release_buffer s = elim s.file_buffer [
  | none ↦ undefined
  | some lines ↦ free_lines s.file_buffer_size lines >>= λ buffers.
      done (record s { freed = s.freed ++ buffers; file_buffer = none })
]

module _ (fgets : Fgets) where
  -- The loop: `running` is never reset. A `%s` for a null pointer is undefined.
  pub run : ℕ → List ℕ → Buffer → State → Run (ℕ × State)
  unfolding release_buffer
  run zero stdin input s = out_of_fuel
  run (suc fuel) stdin input s = elim s.prompt [
    | none ↦ undefined
    | some prompt ↦
        let s' = record s { out = s.out ++ prompt } in
        let got = fgets input_size stdin in
        elim got.read [
          | none ↦ release_buffer s' >>= λ s''.
              done (1, record s'' { err = s''.err ++ codes "Failed to read from stdin" ++ 10 ∷ [] })
          | some read ↦ place 0 (some read) input >>= λ input'. run fuel got.left input' s'
        ]
  ]

  -- `calloc` says whether there is memory for the lines; what `input_buffer` holds at first is
  -- `garbage`.
  pub main : ℕ → Getopt → Bool → Mem → List ℕ → List ℕ → List (List ℕ) → Run (ℕ × State)
  unfolding run configure
  main fuel getopt calloc garbage stdin name argv =
      let (ok, s) = configure name (getopt (codes "hsp:") argv).options start in
      if ok
      then if calloc
        then run fuel stdin (block garbage input_size)
            (record s { file_buffer = some (replicate 15 none) })
        else done (1, record s { err = s.err ++ codes "Failed to allocate line buffer" ++ 10 ∷ [] })
      else done (1, s)
