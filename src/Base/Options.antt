-- ===== src/Base/Options.antt =====
-- getopt(3), which the C library provides: the results that the calls of a loop get for an option
-- string and an argument vector, each an option character with its argument, up to the -1 that ends
-- the loop, and the `optind` that is then left.
use Prim.Native.Nat.{ℕ}
use mathlib.Core.List.{List}

pub record Scan : Type 0 where
  pub options : List (ℕ × List ℕ)
  pub optind : ℕ

abbrev pub Getopt : Type 0
Getopt = List ℕ → List (List ℕ) → Scan
