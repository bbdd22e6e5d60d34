-- ===== src/Uname.antt =====
-- usr/bin/uname/src/main.c, with `getopt` and the structure that uname(2) fills as parameters.
pub mod Fields
mod Tests
use ganos.Base.{
  ℕ, zero, suc, List, [], ◌∷◌, ◌++◌, ◌==◌, if◌then◌else◌, Bool, true, false, not, ◌&&◌, ◌||◌, codes,
  Getopt, Scan,
}

-- The fields that are printed of `struct utsname`.
pub record Utsname : Type 0 where
  pub sysname : List ℕ
  pub nodename : List ℕ
  pub release : List ℕ
  pub version : List ℕ
  pub machine : List ℕ

-- `flags`, a Bool for each of its five bits.
pub record Flags : Type 0 where
  pub mflag : Bool
  pub nflag : Bool
  pub rflag : Bool
  pub sflag : Bool
  pub vflag : Bool

-- The rows of the table `fields`, each a flag and the field that it selects.
pub data Field : Type 0 where
  m n r s v : Field

abbrev pub fields : List Field
fields = s ∷ n ∷ r ∷ v ∷ m ∷ []

abbrev no_flags : Flags
no_flags = record { mflag = false; nflag = false; rflag = false; sflag = false; vflag = false }

abbrev all_flags : Flags
all_flags = record { mflag = true; nflag = true; rflag = true; sflag = true; vflag = true }

abbrev pub is_set : Field → Flags → Bool
is_set m flags = flags.mflag
is_set n flags = flags.nflag
is_set r flags = flags.rflag
is_set s flags = flags.sflag
is_set v flags = flags.vflag

abbrev put : Field → Bool → Flags → Flags
put m b flags = record flags { mflag = b }
put n b flags = record flags { nflag = b }
put r b flags = record flags { rflag = b }
put s b flags = record flags { sflag = b }
put v b flags = record flags { vflag = b }

abbrev pub value : Utsname → Field → List ℕ
value d m = d.machine
value d n = d.nodename
value d r = d.release
value d s = d.sysname
value d v = d.version

-- `flags != 0`.
abbrev pub any_flag : Flags → Bool
any_flag flags = flags.mflag || (flags.nflag || (flags.rflag || (flags.sflag || flags.vflag)))

-- The loop over the options; an unknown one is reported and passed over.
pub options_loop : List (ℕ × List ℕ) → Flags → Flags
options_loop [] flags = flags
options_loop ((c, arg) ∷ options) flags = options_loop options (
    if c == 97
    then all_flags
    else if c == 109
    then put m true flags
    else if c == 110
    then put n true flags
    else if c == 114
    then put r true flags
    else if c == 115
    then put s true flags
    else if c == 118
    then put v true flags
    else flags)

-- The loop over the table: a space follows while flags are left.
fields_loop : Utsname → List Field → Flags → List ℕ
fields_loop d [] flags = []
fields_loop d (f ∷ fs) flags =
    let later = fields_loop d fs (put f false flags) in
    let rest = fields_loop d fs flags in
    if is_set f flags
    then value d f ++ ((if any_flag (put f false flags) then codes " " else []) ++ later)
    else rest

pub print : Utsname → Flags → List ℕ
unfolding fields_loop
print d flags =
    if any_flag flags then fields_loop d fields flags ++ codes "\n" else d.sysname ++ codes "\n"

pub main : Getopt → Utsname → List (List ℕ) → List ℕ
unfolding options_loop print
main getopt d argv = print d (options_loop (getopt (codes ":amnrsv") argv).options no_flags)
