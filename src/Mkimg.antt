-- ===== src/Mkimg.antt =====
-- tools/mkimg/main.c: the options and the constant that it prints. `getopt` is a parameter; what it
-- writes itself is left out.
use ganos.Base.{
  ℕ, List, [], ◌∷◌, ◌++◌, ◌≡◌, refl, ap, arith, append_assoc, append-nil, sym, ◌⊎◌, inl, inr, All,
  Getopt, ◌||◌, ◌==◌, if◌then◌else◌, codes,
}

-- What is written to standard output and to standard error.
record Written : Type 0 where
  out : List ℕ
  err : List ℕ

copyright_text : List ℕ → List ℕ
copyright_text name =
    name
    ++ codes " 1.0.0\n"
    ++ codes "Copyright (C) 2021 Gregory Norton <gregory.norton@me.com>\n"
    ++ codes "This is free software; see the source for copying conditions."
    ++ codes " There is NO warranty; not even for MERCHANTABILITY or FITNESS FOR"
    ++ codes " A PARTICULAR PURPOSE.\n"

copyright : List ℕ → Written → Written
unfolding copyright_text
copyright name s = record s { out = s.out ++ copyright_text name }

usage : List ℕ → Written → Written
usage name s = record s {
  err = s.err ++ codes "Usage: " ++ name ++ codes " [options] output\nOptions:\n";
}

-- The status and the output so far.
configure : List (ℕ × List ℕ) → List ℕ → Written → ℕ × Written
unfolding copyright usage
configure [] name s = (0, s)
configure ((c, optarg) ∷ options) name s =
    let ignored = configure options name s in
    let shown = configure options name (copyright name s) in
    if c == 115 || c == 116 then ignored else if c == 99 then shown else (1, usage name s)

main : Getopt → List ℕ → List (List ℕ) → ℕ × Written
unfolding configure
main getopt name argv =
    let (status, s) =
      configure (getopt (codes "hct:s:") argv).options name (record { out = []; err = [] }) in
    if status == 0 then (0, record s { out = s.out ++ codes "Hello World!\n" }) else (1, s)

-- One copyright for each `-c`.
copyrights : List (ℕ × List ℕ) → List ℕ → List ℕ
copyrights [] name = []
copyrights ((c, optarg) ∷ options) name =
    let rest = copyrights options name in if c == 99 then copyright_text name ++ rest else rest

abbrev IsKnown : ℕ × List ℕ → Type 0
IsKnown (c, optarg) = (c ≡ 115) ⊎ ((c ≡ 116) ⊎ (c ≡ 99))

configure-copyrights :
    (options : List (ℕ × List ℕ)) (name : List ℕ) (s : Written)
    → All IsKnown options
    → configure options name s ≡ (0, record s { out = s.out ++ copyrights options name })
unfolding configure copyrights copyright
configure-copyrights [] name s h = ap (λ cs. (0, record s { out = cs })) (sym (append-nil s.out))
configure-copyrights ((c, optarg) ∷ options) name s (inl e, h) =
    ground (arith, e, configure-copyrights options name s h)
configure-copyrights ((c, optarg) ∷ options) name s (inr (inl e), h) =
    ground (arith, e, configure-copyrights options name s h)
configure-copyrights ((c, optarg) ∷ options) name s (inr (inr e), h) =
    let assoc = append_assoc s.out (copyright_text name) (copyrights options name) in
    ground (arith, e, assoc, configure-copyrights options name (copyright name s) h)

-- With known options `mkimg` succeeds and writes a copyright for each `-c`, then its greeting.
main-copyrights :
    (getopt : Getopt) (name : List ℕ) (argv : List (List ℕ))
    → All IsKnown (getopt (codes "hct:s:") argv).options
    → main getopt name argv ≡ (
      0,
      record {
        out = copyrights (getopt (codes "hct:s:") argv).options name ++ codes "Hello World!\n";
        err = [];
      },
    )
unfolding main
main-copyrights getopt name argv known =
    let options = (getopt (codes "hct:s:") argv).options in
    let e = configure-copyrights options name (record { out = []; err = [] }) known in rw e refl
