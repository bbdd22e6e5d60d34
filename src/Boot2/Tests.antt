-- ===== src/Boot2/Tests.antt =====
-- The theorems on the loader at concrete screens, and runs of its functions.
use ganos.Base.{
  ◌-◌, get_or, some, ℕ, ◌≡◌, ◌≢◌, refl, arith, inl, inr, List, [], ◌∷◌, leb, if◌then◌else◌,
}
use ganos.Base.Run.{done, out_of_fuel}
use ganos.Boot2.{State, VideoMode, init_screen}
use ganos.Boot2.Clear.{init_screen-diverges}
use ganos.Boot2.Number.{put_str, IsInside, WithinBuffer, put_str-WithinBuffer}
use ganos.Boot2.Printf.{printf, colour}
use ganos.Boot2.Printf.Strings.{new_line}
use ganos.Boot2.Cpuid.{Processor, cpuid, cpuid_lem, brand_string, laid, until_nul}
use ganos.Boot2.Printf.Pieces.{Piece, text, signed, hex, AllShownAs, format, arguments, printf_lem}
use ganos.Boot2.Smbios.{IsFirst, locate_smbios_entry, locate_smbios_entry-IsFirst, checksum}
use ganos.Boot2.Memory.Screen.{Cleared, Reports}
use ganos.Boot2.Memory.Report.{IsFound, IsSmall, report, entry32-Reports}
use ganos.Boot2.Memory.{SysInfo, entry32, entry32-undefined}

abbrev screen80 : State
screen80 = record {
  screen = record { buffer = 0xB8000; index = 0; width = 80; height = 25 };
  mem = λ k. 1;
}

abbrev screen320 : State
screen320 = record screen80 {
  screen = record { buffer = 0xA0000; index = 0; width = 320; height = 200 };
}

abbrev mode13 : VideoMode
mode13 = record { mode = 0x0D; columns = 40; active_page = 0 }

abbrev one_entry : SysInfo
one_entry = record {
  vmode = record { mode = 3; columns = 80; active_page = 0 };
  count = 1;
  entries =
      record { base_l = 0; base_h = 0; length_l = 655360; length_h = 0; type = 1; acpi = 1 } ∷ [];
  drive_number = 128;
  sector_size = 512;
}

init_screen-diverges_example : init_screen 100000 mode13 screen80 ≡ out_of_fuel
init_screen-diverges_example =
    init_screen-diverges 100000 mode13 screen80 (inr (inr (inr (inr (inr (inl refl))))))

screen80-IsInside : IsInside screen80
screen80-IsInside = omega arith

put_str-WithinBuffer_example :
    IsInside (put_str (72 ∷ 105 ∷ []) 7 screen80)
    × WithinBuffer screen80 (put_str (72 ∷ 105 ∷ []) 7 screen80)
put_str-WithinBuffer_example = put_str-WithinBuffer (72 ∷ 105 ∷ []) 7 screen80 screen80-IsInside

-- "n=%d, 0x%X"
abbrev pieces : List Piece
pieces = text (110 ∷ 61 ∷ []) ∷ signed 42 ∷ text (44 ∷ 32 ∷ 48 ∷ 120 ∷ []) ∷ hex 255 ∷ []

printf_example :
    (out : List ℕ) × AllShownAs pieces out
    × (printf 12 (format pieces) (arguments pieces) screen80 ≡ done (put_str out 7 screen80))
printf_example = printf_lem pieces screen80 (grind arith)

entry32-undefined_example : entry32 5000 12 one_entry screen80 ≢ done screen80
entry32-undefined_example = entry32-undefined 5000 12 one_entry screen80 screen80 (omega arith)

-- An entry point of six bytes at 0xF0020, with its checksum byte.
abbrev bios : ℕ → ℕ
bios k = if leb 0xF0020 k then get_or (95 ∷ 83 ∷ 77 ∷ 95 ∷ 156 ∷ 6 ∷ []) (k - 0xF0020) 0 else 0

locate_example : IsFirst bios 4096 0xF0000 (locate_smbios_entry bios)
locate_example = locate_smbios_entry-IsFirst bios

located : locate_smbios_entry bios ≡ some 0xF0020
unfolding locate_smbios_entry checksum
located = refl

bios-IsFound : IsFound bios 0xF0020
bios-IsFound = record { found = located; major = omega arith; minor = omega arith }

abbrev no_entry : SysInfo
no_entry = record one_entry { count = 0; entries = [] }

no_entry-IsSmall : IsSmall no_entry
no_entry-IsSmall = record {
  no_entries = refl;
  drive_number = omega arith;
  sector_size = omega arith;
}

abbrev fresh : State
fresh = record screen80 { mem = bios }

entry32-Reports_example :
    (u : State) × (t : State) × (entry32 4001 12 no_entry fresh ≡ done t)
    × Cleared fresh u
    × Reports (report no_entry 0xF0020 0 0) u t
entry32-Reports_example =
    entry32-Reports no_entry fresh 0xF0020 (inr refl) no_entry-IsSmall bios-IsFound

abbrev brand : Processor
brand n = record { a = 0x65746E49; b = 0x6C; c = 0; d = 0 }

cpuid_example :
    cpuid 53 brand 0x7000 screen80
    ≡ done (
        new_line (
          put_str
            (until_nul (brand_string brand))
            colour
            (record screen80 { mem = laid screen80.mem 0x7000 (brand_string brand) })))
cpuid_example =
    cpuid_lem 53 brand 0x7000 screen80 screen80-IsInside (inl (omega arith)) (omega arith)
      (omega arith)
