-- ===== src/Shell/Lookup/Path.antt =====
-- The table finds exactly its names, and the path loop splits PATH at its colons.
use ganos.Base.{
  Option-cases, map, ℕ, zero, suc, ◌<◌, ◌≡◌, ◌≢◌, ◌↔◌, refl, ap, ◌∙◌, arith, List, [], ◌∷◌, ◌++◌,
  true, Bool-cases, inl, inr, none, some, length, length-append, All, codes, same, same-eq,
}
use ganos.Base.Run.{done}
use ganos.Shell.World.{World}
use ganos.Shell.Lookup.{
  value_of, cut_environ, BuiltinUtil, cd, exit, set, which, builtin_lookup, component, path_loop,
  current_paths, lookup, notfound,
}

-- The name under which a built-in command stands in the table.
abbrev pub name : BuiltinUtil → List ℕ
name cd = codes "cd"
name exit = codes "exit"
name set = codes "set"
name which = codes "which"

found_name : (util : List ℕ) (f : BuiltinUtil) → builtin_lookup util ≡ some f → util ≡ name f
unfolding builtin_lookup
found_name util f h = elim (Bool-cases (same util (name cd))) [
  | inl e ↦ from cd e (ground arith)
  | inr n ↦ elim (Bool-cases (same util (name exit))) [
    | inl e ↦ from exit e (ground arith)
    | inr o ↦ elim (Bool-cases (same util (name set))) [
      | inl e ↦ from set e (ground arith)
      | inr p ↦ elim (Bool-cases (same util (name which))) [
        | inl e ↦ from which e (ground arith)
        | inr q ↦ absurd (ground arith)
      ]
    ]
  ]
]
  where
    from : (g : BuiltinUtil) → same util (name g) ≡ true → g ≡ f → util ≡ name f
    from g e eq = same-eq util (name g) e ∙ ap name eq

name_found : (f : BuiltinUtil) → builtin_lookup (name f) ≡ some f
unfolding builtin_lookup
name_found cd = refl
name_found exit = refl
name_found set = refl
name_found which = refl

-- The lookup finds a command exactly under its own name.
pub builtin_lookup_iff :
    (util : List ℕ) (f : BuiltinUtil) → (builtin_lookup util ≡ some f) ↔ (util ≡ name f)
builtin_lookup_iff util f = (found_name util f, λ e. ap builtin_lookup e ∙ name_found f)

-- The components of a path, joined by colons.
abbrev pub joined : List (List ℕ) → List ℕ
joined [] = []
joined (c ∷ []) = c
joined (c ∷ d ∷ cs) = c ++ 58 ∷ joined (d ∷ cs)

-- No component holds a colon, and the last one is not empty.
abbrev pub IsPath : List (List ℕ) → Type 0
IsPath [] = Unit
IsPath (c ∷ []) = All (λ x. x ≢ 58) c × (c ≢ [])
IsPath (c ∷ d ∷ cs) = All (λ x. x ≢ 58) c × IsPath (d ∷ cs)

component-colon :
    (c rest : List ℕ) → All (λ x. x ≢ 58) c → component (c ++ 58 ∷ rest) ≡ (c, 58 ∷ rest)
unfolding component
component-colon [] rest h = refl
component-colon (x ∷ c) rest h = rw (component-colon c rest h.1) (ground arith)

component-end : (c : List ℕ) → All (λ x. x ≢ 58) c → component c ≡ (c, [])
unfolding component
component-end [] h = refl
component-end (x ∷ c) h = rw (component-end c h.1) (ground arith)

path_loop-joined :
    (cs : List (List ℕ)) (n : ℕ)
    → length (joined cs) < n
    → IsPath cs
    → path_loop n (joined cs) ≡ done cs
unfolding path_loop
path_loop-joined cs zero l h = absurd (omega arith)
path_loop-joined [] (suc n) l h = refl
path_loop-joined ([] ∷ []) (suc n) l h = absurd (h.1 refl)
path_loop-joined ((x ∷ c) ∷ []) (suc n) l h =
    rw (component-end (x ∷ c) h.0, path_loop-joined [] n (omega arith) tt)
path_loop-joined ([] ∷ d ∷ cs) (suc n) l h =
    rw (component-colon [] (joined (d ∷ cs)) tt, path_loop-joined (d ∷ cs) n (omega arith) h.1)
path_loop-joined ((x ∷ c) ∷ d ∷ cs) (suc n) l h = rw (
  component-colon (x ∷ c) (joined (d ∷ cs)) h.0,
  path_loop-joined (d ∷ cs) n (omega (arith, length-append c (58 ∷ joined (d ∷ cs)))) h.1,
)

abbrev pub first : List (List ℕ) → List ℕ
first [] = []
first (c ∷ cs) = c

component-joined : (cs : List (List ℕ)) → IsPath cs → (component (joined cs)).0 ≡ first cs
component-joined [] h = unfold component in refl
component-joined (c ∷ []) h = rw (component-end c h.0)
component-joined (c ∷ d ∷ cs) h = rw (component-colon c (joined (d ∷ cs)) h.0)

value_of-some : (name entry p : List ℕ) → value_of name entry ≡ some p → entry ≡ name ++ p
unfolding value_of
value_of-some [] entry p h = ground arith
value_of-some (x ∷ name) [] p h = absurd (cc)
value_of-some (x ∷ name) (y ∷ entry) p h = ground (arith, value_of-some name entry p)

-- The entry is not one of PATH.
abbrev pub IsOther : List ℕ → Type 0
IsOther entry = (p : List ℕ) → entry ≢ codes "PATH=" ++ p

cut_environ_lem :
    (before more : List (List ℕ)) (p : List ℕ)
    → All IsOther before
    → cut_environ (before ++ (codes "PATH=" ++ p) ∷ more)
      ≡ before ++ (codes "PATH=" ++ (component p).0) ∷ more
unfolding cut_environ value_of
cut_environ_lem [] more p h = refl
cut_environ_lem (entry ∷ before) more p h = elim (Option-cases (value_of (codes "PATH=") entry)) [
  | inl e ↦ rw e (ap (λ es. entry ∷ es) (cut_environ_lem before more p h.1))
  | inr (q, e) ↦ absurd (h.0 q (value_of-some (codes "PATH=") entry q e))
]

current_paths-map :
    (cs : List (List ℕ)) → current_paths cs ≡ map (λ c. codes "current path = " ++ c) cs
unfolding current_paths
current_paths-map [] = refl
current_paths-map (c ∷ cs) = ap (λ l. (codes "current path = " ++ c) ∷ l) (current_paths-map cs)

-- For a name that is no built-in command and a PATH of components without colons, the last of which
-- is not empty, `lookup` prints "current path = " and the component for each component, in order,
-- finds nothing in any of them, and leaves an environment in which PATH has only the first one.
pub lookup-path :
    (sn : List ℕ) (cs before more : List (List ℕ)) (w : World)
    → IsPath cs
    → w.path ≡ some (joined cs)
    → w.environ ≡ before ++ (codes "PATH=" ++ joined cs) ∷ more
    → All IsOther before
    → builtin_lookup sn ≡ none
    → lookup (suc (length (joined cs))) sn w
      ≡ done (
        notfound,
        record w {
          path = some (first cs);
          environ = before ++ (codes "PATH=" ++ first cs) ∷ more;
          printed = w.printed ++ map (λ c. codes "current path = " ++ c) cs;
          errors = w.errors ++ joined cs ∷ [];
        },
      )
unfolding lookup
lookup-path sn cs before more w h p env others n =
    let loops = path_loop-joined cs (suc (length (joined cs))) (omega arith) h in
    let left : cut_environ w.environ ≡ before ++ (codes "PATH=" ++ first cs) ∷ more =
      ap cut_environ env
      ∙ cut_environ_lem before more (joined cs) others
      ∙ ap (λ c. before ++ (codes "PATH=" ++ c) ∷ more) (component-joined cs h) in
    ground (arith, loops, left, component-joined cs h, current_paths-map cs)
