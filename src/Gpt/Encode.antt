-- ===== src/Gpt/Encode.antt =====
-- The packed structures of configure.c and their bytes, least significant first.
use ganos.Base.{le16, le32, le64, ℕ, List, [], ◌∷◌, ◌++◌}

pub record MbrPartitionEntry : Type 0 where
  pub status : ℕ
  pub first_chs_address : List ℕ
  pub type : ℕ
  pub last_chs_address : List ℕ
  pub first_lba : ℕ
  pub sector_count : ℕ

-- `reserved` is zero.
pub record GptHeader : Type 0 where
  pub signature : List ℕ
  pub revision : List ℕ
  pub header_size : ℕ
  pub crc32_zlib : ℕ
  pub current_lba : ℕ
  pub backup_lba : ℕ
  pub first_usable_lba : ℕ
  pub last_usable_lba : ℕ
  pub disk_guid : List ℕ
  pub part_array_lba : ℕ
  pub part_entry_count : ℕ
  pub part_entry_size : ℕ
  pub crc32_zlib_part_array : ℕ

pub record GptPartitionEntry : Type 0 where
  pub partition_type_guid : List ℕ
  pub unique_partition_guid : List ℕ
  pub first_lba : ℕ
  pub last_lba : ℕ
  pub attribute_flags : ℕ
  pub partition_name : List ℕ

abbrev pub le16s : List ℕ → List ℕ
le16s [] = []
le16s (n ∷ ns) = le16 n ++ le16s ns

abbrev pub mbr_bytes : MbrPartitionEntry → List ℕ
mbr_bytes e =
    e.status ∷ e.first_chs_address
    ++ (e.type ∷ e.last_chs_address ++ (le32 e.first_lba ++ le32 e.sector_count))

abbrev pub header_bytes : GptHeader → List ℕ
header_bytes h =
    h.signature
    ++ (h.revision
        ++ (le32 h.header_size
            ++ (le32 h.crc32_zlib
                ++ (0 ∷ 0 ∷ 0 ∷ 0 ∷ le64 h.current_lba
                    ++ (le64 h.backup_lba
                        ++ (le64 h.first_usable_lba
                            ++ (le64 h.last_usable_lba
                                ++ (h.disk_guid
                                    ++ (le64 h.part_array_lba
                                        ++ (le32 h.part_entry_count
                                            ++ (le32 h.part_entry_size
                                                ++ le32 h.crc32_zlib_part_array)))))))))))

abbrev pub part_bytes : GptPartitionEntry → List ℕ
part_bytes e =
    e.partition_type_guid
    ++ (e.unique_partition_guid
        ++ (le64 e.first_lba
            ++ (le64 e.last_lba ++ (le64 e.attribute_flags ++ le16s e.partition_name))))

abbrev pub array_bytes : List GptPartitionEntry → List ℕ
array_bytes [] = []
array_bytes (e ∷ es) = part_bytes e ++ array_bytes es
