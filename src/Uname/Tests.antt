-- ===== src/Uname/Tests.antt =====
-- `uname` on a concrete system.
use ganos.Base.{Getopt, ◌≡◌, refl, [], ◌∷◌, true, false, codes}
use ganos.Uname.{Utsname, Flags, fields_loop, print, main}
use ganos.Uname.Fields.{answers, asked, joined, main-wanted}

abbrev host : Utsname
host = record {
  sysname = codes "GANOS";
  nodename = codes "host";
  release = codes "1";
  version = codes "2";
  machine = codes "x86";
}

abbrev release_and_machine : Flags
release_and_machine = record {
  mflag = true;
  nflag = false;
  rflag = true;
  sflag = false;
  vflag = false;
}

abbrev r_and_m : Getopt
r_and_m spec argv = record { options = (114, []) ∷ (63, []) ∷ (109, []) ∷ []; optind = 2 }

main-wanted_example : main r_and_m host [] ≡ codes "1 x86\n"
unfolding answers asked joined
main-wanted_example = main-wanted r_and_m host []

print_text : print host release_and_machine ≡ codes "1 x86\n"
unfolding print fields_loop
print_text = refl
