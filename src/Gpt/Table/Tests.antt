-- ===== src/Gpt/Table/Tests.antt =====
-- The table on a blank floppy image of 2880 sectors.
use ganos.Base.{
  refl, Getopt, Option, some, codes, ℕ, ◌+◌, ◌*◌, ◌-◌, ◌/◌, ◌%◌, ◌^◌, ◌≡◌, ◌≤◌, ◌<◌, List, [], ◌∷◌,
  arith, Mem,
}
use ganos.Base.Run.{done}
use ganos.Gpt.{Write, main, configure}
use ganos.Gpt.Image.{image}
use ganos.Gpt.Layout.{sector_512}
use ganos.Gpt.Table.{IsTable, main-IsTable}

-- A checksum of 32 bits.
sum : List ℕ → ℕ
sum [] = 0
sum (c ∷ cs) = (c + sum cs) % 2 ^ 32

sum-word : (cs : List ℕ) → sum cs < 2 ^ 32
unfolding sum
sum-word [] = omega arith
sum-word (c ∷ cs) = omega arith

abbrev blank : Mem
blank k = 0

abbrev getopt : Getopt
getopt spec argv = record { options = (115, codes "512") ∷ (100, codes "disk") ∷ []; optind = 5 }

abbrev strtol : List ℕ → Option ℕ
strtol digits = some 512

abbrev fopen : List ℕ → Option ℕ
fopen name = some 1474560

configured :
    configure getopt strtol [] ≡ some (record { dev_name = some (codes "disk"); sector_size = 512 })
unfolding configure
configured = refl

main-IsTable_example :
    (writes : List Write) × (main sum getopt strtol fopen [] ≡ done (0, writes))
    × IsTable sum 512 (image writes blank)
    × ((k : ℕ) → 512 * 34 ≤ k → k < 512 * (1474560 / 512 - 33) → image writes blank k ≡ blank k)
main-IsTable_example =
    main-IsTable sum sum-word getopt strtol fopen [] (codes "disk") 512 1474560 blank configured
      refl sector_512 (omega arith) (omega arith)
