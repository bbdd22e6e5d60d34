-- ===== src/Gdt/Tests.antt =====
-- The descriptors that the tool prints, and the theorem at a concrete segment.
use ganos.Base.{◌%◌, ◌/◌, ◌^◌, ◌<◌, ◌≡◌, refl, [], ◌∷◌, arith}
use ganos.Gdt.{create_descriptor, main}
use ganos.Gdt.Fields.{segment_base, segment_limit, access_byte, flags, create_descriptor-fields}

printed :
    main
    ≡ 0 ∷ 0x00CF9A000000FFFF ∷ 0x00CF92000000FFFF ∷ 0x00CFFA000000FFFF ∷ 0x00CFF2000000FFFF ∷ []
unfolding main
printed = refl

create_descriptor-fields_example :
    let d = create_descriptor 0x12345678 0xABCDEF01 0xC09A in
    (segment_base d ≡ 0x12345678)
    × (segment_limit d ≡ 0xABCDEF01 % 2 ^ 20)
    × (access_byte d ≡ 0xC09A % 2 ^ 8)
    × (flags d ≡ 0xC09A / 2 ^ 12)
    × (d < 2 ^ 64)
create_descriptor-fields_example =
    create_descriptor-fields 0x12345678 0xABCDEF01 0xC09A (omega arith) (omega arith) (omega arith)
