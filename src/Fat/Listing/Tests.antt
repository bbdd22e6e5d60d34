-- ===== src/Fat/Listing/Tests.antt =====
-- A volume of two sectors before its root directory, and the theorems on it.
use ganos.Base.{ℕ, ◌≡◌, List, Bool, true, none, arith, ◌==◌, Option, Mem, if◌then◌else◌}
use ganos.Fat.{bpb_at, Disk, read, root_dir_offset}
use ganos.Fat.Listing.{root_dir_offset_lem}

-- 64 bytes to a sector, 2 sectors to a cluster, 1 reserved, 1 table of 1 sector, root at cluster 2.
abbrev boot : Mem
boot k =
    if k == 11
    then 64
    else if k == 13
    then 2
    else if k == 14
    then 2
    else if k == 16
    then 1
    else if k == 36
    then 1
    else if k == 44
    then 2
    else 0

-- One file, A.C, of 7 bytes in cluster 3, at offset 192.
abbrev image : Mem
image k =
    if k == 224
    then 65
    else if k == 225
    then 32
    else if k == 232
    then 67
    else if k == 233
    then 32
    else if k == 250
    then 3
    else if k == 252
    then 7
    else boot k

abbrev disk : Disk
disk = record { content = image; size = 512 }

abbrev zeros : Mem
zeros k = 0

abbrev no_file : List ℕ → Option Disk
no_file name = none

abbrev always : ℕ → Bool
always n = true

root_dir_offset_example : root_dir_offset (bpb_at (read disk 0 zeros)) ≡ 192
root_dir_offset_example =
    root_dir_offset_lem (bpb_at (read disk 0 zeros)) (omega arith) (omega arith) (omega arith)
      (omega arith)
