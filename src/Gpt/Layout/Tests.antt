-- ===== src/Gpt/Layout/Tests.antt =====
-- A floppy image of 2880 sectors.
use ganos.Base.{ℕ, ◌≡◌, List, arith, length}
use ganos.Base.Run.{done}
use ganos.Gpt.{Write, write_table}
use ganos.Gpt.Layout.{IsLaidOut, sector_512, write_table-IsLaidOut}

abbrev no_crc : List ℕ → ℕ
no_crc content = 0

write_table-IsLaidOut_example :
    (writes : List Write) × (write_table no_crc 512 1474560 ≡ done writes)
    × (length writes ≡ 5)
    × IsLaidOut 446 writes 1474560
write_table-IsLaidOut_example =
    write_table-IsLaidOut no_crc 512 1474560 sector_512 (omega arith) (omega arith)
