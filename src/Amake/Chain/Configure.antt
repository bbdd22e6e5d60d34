-- ===== src/Amake/Chain/Configure.antt =====
-- `configure` of amake builds the list of the operands of `-f`, whatever allocations fail.
use ganos.Base.{
  ◌⊎◌, ℕ, ◌+◌, ◌<◌, ◌≤◌, ◌≡◌, ◌≢◌, refl, sym, ap, ◌∙◌, arith, List, [], ◌∷◌, ◌++◌, if◌then◌else◌,
  inl, inr, Option, none, some, Option-cases,
}
use ganos.Base.Run.{Run, done}
use ganos.Amake.{
  Pointer, unset, null, to, Str, Heap, put, State, Configured, go_on, fail, is_null, set_next,
  new_path, append, add_path,
}
use ganos.Amake.Chain.{
  Cells, head_of, last_of, str, heap_of, NotIn, Nodup, values, put-none, put-put, link-heap_of,
}

-- The state with this list, `n` calls of `malloc` later.
abbrev pub holding : Cells → ℕ → List ℕ → State
holding cells n out = record {
  heap = heap_of cells;
  calls = n;
  paths = head_of cells;
  printed = out;
}

NotIn-snoc :
    (cells : Cells) (q p : ℕ) (name : List ℕ)
    → NotIn q cells
    → q ≢ p
    → NotIn q (cells ++ (p, name) ∷ [])
NotIn-snoc [] q p name out ne = (ne, tt)
NotIn-snoc ((r, v) ∷ cells) q p name out ne = (out.0, NotIn-snoc cells q p name out.1 ne)

Nodup-snoc :
    (cells : Cells) (p : ℕ) (name : List ℕ)
    → Nodup cells
    → NotIn p cells
    → Nodup (cells ++ (p, name) ∷ [])
Nodup-snoc [] p name nodup out = (tt, tt)
Nodup-snoc ((q, v) ∷ cells) p name nodup out =
    (NotIn-snoc cells q p name nodup.0 (λ e. out.0 (sym e)), Nodup-snoc cells p name nodup.1 out.1)

pub last_of-snoc :
    (cells : Cells) (p : ℕ) (name : List ℕ) → last_of (cells ++ (p, name) ∷ []) ≡ to p
last_of-snoc [] p name = refl
last_of-snoc (c ∷ []) p name = refl
last_of-snoc (c ∷ d ∷ cells) p name = last_of-snoc (d ∷ cells) p name

head_of-snoc :
    (cells : Cells) (p : ℕ) (name : List ℕ)
    → head_of (cells ++ (p, name) ∷ []) ≡ (if is_null (head_of cells) then to p else head_of cells)
unfolding is_null
head_of-snoc [] p name = refl
head_of-snoc ((q, v) ∷ cells) p name = refl

pub values-snoc :
    (cells : Cells) (p : ℕ) (name : List ℕ)
    → values (cells ++ (p, name) ∷ []) ≡ values cells ++ name ∷ []
unfolding values
values-snoc [] p name = refl
values-snoc ((q, v) ∷ cells) p name = ap (λ xs. v ∷ xs) (values-snoc cells p name)

set_next-put :
    (h : Heap) (p : ℕ) (s : Str) (q : Pointer)
    → set_next p q (put h p (some s)) ≡ done (put h p (some (record s { next = q })))
unfolding set_next
set_next-put h p s q = ground (arith, put-put h p (some s) (some (record s { next = q })))

-- No block is handed out twice.
abbrev pub Distinct : (ℕ → Option ℕ) → Type 0
Distinct malloc = (i j p : ℕ) → malloc i ≡ some p → malloc j ≡ some p → i ≡ j

module _ (malloc : ℕ → Option ℕ) (distinct : Distinct malloc) where
  -- Every structure comes from one of the first `n` calls.
  abbrev pub Taken : ℕ → Cells → Type 0
  Taken n [] = Unit
  Taken n ((p, name) ∷ cells) = ((i : ℕ) × (i < n) × (malloc i ≡ some p)) × Taken n cells

  pub Taken-later : (cells : Cells) (n k : ℕ) → n ≤ k → Taken n cells → Taken k cells
  Taken-later [] n k le taken = tt
  Taken-later (c ∷ cells) n k le ((i, lt, e), taken) =
      ((i, omega arith, e), Taken-later cells n k le taken)

  Taken-snoc :
      (cells : Cells) (n p : ℕ) (name : List ℕ)
      → (i : ℕ) × (i < n) × (malloc i ≡ some p)
      → Taken n cells
      → Taken n (cells ++ (p, name) ∷ [])
  Taken-snoc [] n p name from taken = (from, tt)
  Taken-snoc (c ∷ cells) n p name from taken = (taken.0, Taken-snoc cells n p name from taken.1)

  NotIn-fresh : (cells : Cells) (n p : ℕ) → malloc n ≡ some p → Taken n cells → NotIn p cells
  NotIn-fresh [] n p e taken = tt
  NotIn-fresh ((q, v) ∷ cells) n p e ((i, lt, from), taken) =
      (λ same. omega (arith, distinct i n q from (e ∙ ap some same)), NotIn-fresh cells n p e taken)

  -- The list so far is in order.
  pub record IsList (cells : Cells) (n : ℕ) : Type 0 where
    pub nodup : Nodup cells
    pub taken : Taken n cells

  pub IsList-snoc :
      (cells : Cells) (n p : ℕ) (name : List ℕ)
      → malloc n ≡ some p
      → IsList cells n
      → IsList (cells ++ (p, name) ∷ []) (n + 2)
  IsList-snoc cells n p name e h = record {
    nodup = Nodup-snoc cells p name h.nodup (NotIn-fresh cells n p e h.taken);
    taken =
        Taken-snoc cells (n + 2) p name (n, omega arith, e)
          (Taken-later cells n (n + 2) (omega arith) h.taken);
  }

  -- How `add_path` leaves a list: without memory as it was, otherwise with the name at its end.
  abbrev pub Added : Cells → ℕ → List ℕ → List ℕ → Run Configured → Type 0
  Added cells n out name r =
      ((k : ℕ) × (n ≤ k)
        × ((malloc n ≡ none) ⊎ (malloc (n + 1) ≡ none))
        × (r ≡ done (fail (holding cells k out))))
      ⊎ ((p : ℕ) × (malloc n ≡ some p)
          × (r ≡ done (go_on (to p) (holding (cells ++ (p, name) ∷ []) (n + 2) out))))

  new_path-no_copy :
      (name : List ℕ) (s : State) (p : ℕ)
      → malloc s.calls ≡ some p
      → malloc (s.calls + 1) ≡ none
      → new_path malloc name s ≡ (
        none,
        record s {
          heap = put (put s.heap p (some (record { value = none; next = unset }))) p none;
          calls = s.calls + 2;
        },
      )
  unfolding new_path
  new_path-no_copy name s p e e' = ground (arith, e, e')

  pub new_path-both :
      (name : List ℕ) (s : State) (p q : ℕ)
      → malloc s.calls ≡ some p
      → malloc (s.calls + 1) ≡ some q
      → new_path malloc name s ≡ (
        some p,
        record s {
          heap =
              put
                (put s.heap p (some (record { value = none; next = unset })))
                p
                (some (record { value = some name; next = unset }));
          calls = s.calls + 2;
        },
      )
  unfolding new_path
  new_path-both name s p q e e' = ground (arith, e, e')

  no_structure :
      (cells : Cells) (n : ℕ) (out name : List ℕ)
      → malloc n ≡ none
      → add_path malloc name (last_of cells) (holding cells n out)
        ≡ done (fail (holding cells (n + 1) out))
  unfolding add_path
  no_structure cells n out name e = rw (e, new_path) refl

  no_copy :
      (cells : Cells) (n p : ℕ) (out name : List ℕ)
      → NotIn p cells
      → malloc n ≡ some p
      → malloc (n + 1) ≡ none
      → add_path malloc name (last_of cells) (holding cells n out)
        ≡ done (fail (holding cells (n + 2) out))
  unfolding add_path
  no_copy cells n p out name fresh e e' =
      ap (append (last_of cells)) (new_path-no_copy name (holding cells n out) p e e')
      ∙ ap (λ h. done (fail (record (holding cells (n + 2) out) { heap = h })))
          (put-none cells p _ fresh)

  append_both :
      (cells : Cells) (n p : ℕ) (out name : List ℕ)
      → Nodup cells
      → NotIn p cells
      → append (last_of cells) (
        some p,
        record (holding cells n out) {
          heap =
              put
                (put (heap_of cells) p (some (record { value = none; next = unset })))
                p
                (some (record { value = some name; next = unset }));
          calls = n + 2;
        },
      )
        ≡ done (go_on (to p) (holding (cells ++ (p, name) ∷ []) (n + 2) out))
  unfolding append
  append_both cells n p out name nodup fresh =
      rw
        (
          set_next-put (put (heap_of cells) p (some (record { value = none; next = unset }))) p
              (record { value = some name; next = unset }) null,
          put-put (heap_of cells) p (some (record { value = none; next = unset }))
              (some (str name null)),
          link-heap_of cells p name nodup fresh,
          head_of-snoc cells p name,
        )
        refl

  both :
      (cells : Cells) (n p q : ℕ) (out name : List ℕ)
      → Nodup cells
      → NotIn p cells
      → malloc n ≡ some p
      → malloc (n + 1) ≡ some q
      → add_path malloc name (last_of cells) (holding cells n out)
        ≡ done (go_on (to p) (holding (cells ++ (p, name) ∷ []) (n + 2) out))
  unfolding add_path
  both cells n p q out name nodup fresh e e' =
      ap (append (last_of cells)) (new_path-both name (holding cells n out) p q e e')
      ∙ append_both cells n p out name nodup fresh

  pub add_path-Added :
      (cells : Cells) (n : ℕ) (out name : List ℕ)
      → IsList cells n
      → Added cells n out name (add_path malloc name (last_of cells) (holding cells n out))
  add_path-Added cells n out name h = elim (Option-cases (malloc n)) [
    | inl none_n ↦ inl (n + 1, omega arith, inl none_n, no_structure cells n out name none_n)
    | inr (p, some_n) ↦ elim (Option-cases (malloc (n + 1))) [
      | inl none_copy ↦ inl (
        n + 2,
        omega arith,
        inr none_copy,
        no_copy cells n p out name (NotIn-fresh cells n p some_n h.taken) some_n none_copy,
      )
      | inr (q, some_copy) ↦ inr (
        p,
        some_n,
        both cells n p q out name h.nodup (NotIn-fresh cells n p some_n h.taken) some_n some_copy,
      )
    ]
  ]
