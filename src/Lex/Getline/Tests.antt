-- ===== src/Lex/Getline/Tests.antt =====
-- The theorem on the `getline` of lex at a concrete input.
use ganos.Base.{ℕ, List, Bool, true, codes, Mem, none}
use ganos.Getdelim
use ganos.Getdelim.{Caller}

abbrev always : ℕ → Bool
always n = true

abbrev stale : Mem
stale n = 0xAA

abbrev nobody : Caller
nobody = record { line = none; n = 0 }

-- A line longer than the first block of twelve bytes.
abbrev typed : List ℕ
typed = codes "int yylex();"
