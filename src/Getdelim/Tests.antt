-- ===== src/Getdelim/Tests.antt =====
-- The functions of getline.c on concrete streams, and the theorems at concrete inputs.
use ganos.Base.{ℕ, ◌≡◌, refl, [], ◌∷◌, Bool, true, false, none, Mem, arith}
use ganos.Getdelim.{done, Caller, getdelim, Outcome}
use ganos.Getdelim.Reads.{Terminated, Ended}
use ganos.Getdelim.Line.{no_block, getdelim-Terminated, getdelim-Ended}

abbrev always : ℕ → Bool
always n = true

abbrev stale : Mem
stale n = 0xAA

abbrev nobody : Caller
nobody = record { line = none; n = 0 }

getdelim-Terminated_example :
    (o : Outcome) × (getdelim always stale false 10 (97 ∷ 98 ∷ 10 ∷ 99 ∷ []) nobody ≡ done o)
    × Terminated stale 0 (97 ∷ 98 ∷ 10 ∷ []) (99 ∷ []) o
getdelim-Terminated_example =
    getdelim-Terminated always stale (λ n. refl) 10 (97 ∷ 98 ∷ []) (99 ∷ []) nobody stale 12
      (no_block 0) (omega arith) (omega arith)
      ((omega arith, omega arith), ((omega arith, omega arith), record {})) (omega arith)

getdelim-Ended_example :
    (o : Outcome) × (getdelim always stale false 10 (97 ∷ 98 ∷ []) nobody ≡ done o)
    × Ended stale 0 (97 ∷ 98 ∷ []) o
getdelim-Ended_example =
    getdelim-Ended always stale (λ n. refl) 10 (97 ∷ 98 ∷ []) nobody stale 12 (no_block 0)
      (omega arith) ((omega arith, omega arith), ((omega arith, omega arith), record {}))
      (omega arith)
