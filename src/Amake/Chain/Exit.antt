-- ===== src/Amake/Chain/Exit.antt =====
-- `main` of amake: the walk over the list, and the exit.
use ganos.Base.{
  ℕ, zero, suc, ◌<◌, ◌≡◌, ◌≢◌, refl, sym, ap, ◌∙◌, arith, List, [], ◌∷◌, ◌++◌, append_assoc,
  append-nil, Bool, true, false, inl, inr, Option, none, some, Option-cases, All, length,
}
use ganos.Base.Run.{Run, done}
use ganos.Amake.{Pointer, to, Str, Heap, put, State, parse_file, read_files, cleanup}
use ganos.Amake.Chain.{Cells, head_of, str, heap_of, NotIn, Nodup, values, heap_of-free}

abbrev pub empty : Heap
empty p = none

heap_of-head :
    (p : ℕ) (name : List ℕ) (cells : Cells)
    → heap_of ((p, name) ∷ cells) p ≡ some (str name (head_of cells))
unfolding heap_of
heap_of-head p name cells = ground arith

pub cleanup_step :
    (fuel p : ℕ) (name : List ℕ) (next : Pointer) (s : State)
    → s.heap p ≡ some (str name next)
    → cleanup (suc fuel) (to p) s ≡ cleanup fuel next (record s { heap = put s.heap p none })
unfolding cleanup
cleanup_step fuel p name next s e = ground (arith, e)

pub cleanup_lem :
    (fuel : ℕ) (cells : Cells) (s : State)
    → Nodup cells
    → length cells < fuel
    → cleanup fuel (head_of cells) (record s { heap = heap_of cells })
      ≡ done (record s { heap = empty })
cleanup_lem zero cells s nodup enough = absurd (omega arith)
cleanup_lem (suc fuel) [] s nodup enough = unfold cleanup heap_of in refl
cleanup_lem (suc fuel) ((p, name) ∷ cells) s nodup enough =
    cleanup_step fuel p name (head_of cells) (record s { heap = heap_of ((p, name) ∷ cells) })
      (heap_of-head p name cells)
    ∙ ap (λ h. cleanup fuel (head_of cells) (record s { heap = h }))
        (heap_of-free p name cells nodup.0)
    ∙ cleanup_lem fuel cells s nodup.1 (omega arith)

-- The structures of the list stand in the heap.
abbrev pub Stands : Heap → Cells → Type 0
Stands h [] = Unit
Stands h ((p, name) ∷ cells) = (h p ≡ some (str name (head_of cells))) × Stands h cells

Stands-put :
    (cells : Cells) (h : Heap) (p : ℕ) (a : Option Str)
    → NotIn p cells
    → Stands h cells
    → Stands (put h p a) cells
Stands-put [] h p a out stands = tt
Stands-put ((q, v) ∷ cells) h p a out stands =
    (ground (arith, out.0, stands.0), Stands-put cells h p a out.1 stands.1)

pub Stands-heap_of : (cells : Cells) → Nodup cells → Stands (heap_of cells) cells
unfolding heap_of
Stands-heap_of [] nodup = tt
Stands-heap_of ((p, v) ∷ cells) nodup =
    (ground arith, Stands-put cells (heap_of cells) p _ nodup.0 (Stands-heap_of cells nodup.1))

-- The names, each on a line, and behind each the contents of its file.
pub report : (List ℕ → Option (List ℕ)) → List (List ℕ) → List ℕ
report fopen [] = []
report fopen (name ∷ names) =
    name ++ 10 ∷ (elim (fopen name) [ none ↦ [] | some content ↦ content ] ++ report fopen names)

module _ (malloc : ℕ → Option ℕ) (fopen : List ℕ → Option (List ℕ)) where
  abbrev pub Opens : List (List ℕ) → Type 0
  Opens names = All (λ name. fopen name ≢ none) names

  report_cons :
      (before name content : List ℕ) (names : List (List ℕ))
      → fopen name ≡ some content
      → ((before ++ (name ++ 10 ∷ [])) ++ content) ++ report fopen names
        ≡ before ++ report fopen (name ∷ names)
  unfolding report
  report_cons before name content names e = rw e (simp append_assoc)

  pub record Reads (names : List (List ℕ)) (s : State) (r : Run (Bool × State)) : Type 0 where
    pub ok : Bool
    pub after : State
    pub runs : r ≡ done (ok, after)
    pub heap : after.heap ≡ s.heap
    pub paths : after.paths ≡ s.paths
    pub prints :
        Opens names
        → ((k : ℕ) → malloc k ≢ none)
        → (ok ≡ true) × (after.printed ≡ s.printed ++ report fopen names)

  -- What reading a file leaves alone, and prints.
  record Parses (content : List ℕ) (s : State) : Type 0 where
    pub heap : (parse_file malloc content s).heap ≡ s.heap
    pub paths : (parse_file malloc content s).paths ≡ s.paths
    pub prints :
        ((k : ℕ) → malloc k ≢ none) → (parse_file malloc content s).printed ≡ s.printed ++ content

  parse_file-Parses : (content : List ℕ) (s : State) → Parses content s
  unfolding parse_file
  parse_file-Parses content s = elim (Option-cases (malloc s.calls)) [
    | inl e ↦ record {
      heap = ground (arith, e);
      paths = ground (arith, e);
      prints = λ enough. absurd (enough s.calls e);
    }
    | inr (q, e) ↦ record {
      heap = ground (arith, e);
      paths = ground (arith, e);
      prints = λ enough. ground (arith, e);
    }
  ]

  pub read_files_step :
      (fuel p : ℕ) (name : List ℕ) (next : Pointer) (s : State)
      → s.heap p ≡ some (str name next)
      → let s' = record s { printed = s.printed ++ (name ++ 10 ∷ []) } in
        read_files malloc fopen (suc fuel) (to p) s ≡ elim (fopen name) [
          | none ↦ done (false, s')
          | some content ↦ read_files malloc fopen fuel next (parse_file malloc content s')
        ]
  unfolding read_files
  read_files_step fuel p name next s e = ground (arith, e)

  pub read_files-Reads :
      (fuel : ℕ) (cells : Cells) (s : State)
      → Stands s.heap cells
      → length cells < fuel
      → Reads (values cells) s (read_files malloc fopen fuel (head_of cells) s)
  read_files-Reads zero cells s stands enough = absurd (omega arith)
  read_files-Reads (suc fuel) [] s stands enough = record {
    ok = true;
    after = s;
    runs = unfold read_files in refl;
    heap = refl;
    paths = refl;
    prints = λ _ _. (refl, unfold values report in sym (append-nil s.printed));
  }
  read_files-Reads (suc fuel) ((p, name) ∷ cells) s stands enough =
      let s' = record s { printed = s.printed ++ (name ++ 10 ∷ []) } in
      let step = read_files_step fuel p name (head_of cells) s stands.0 in
      elim (Option-cases (fopen name)) [
        | inl e ↦ record {
          ok = false;
          after = s';
          runs = step ∙ rw e refl;
          heap = refl;
          paths = refl;
          prints = unfold values in λ opens _. absurd (opens.0 e);
        }
        | inr (content, e) ↦
            let f = parse_file-Parses content s' in
            let r =
              read_files-Reads fuel cells (parse_file malloc content s') (rw f.heap stands.1)
                (omega arith) in
            record {
              ok = r.ok;
              after = r.after;
              runs = step ∙ rw e r.runs;
              heap = r.heap ∙ f.heap;
              paths = r.paths ∙ f.paths;
              prints = λ opens given.
                  let (succeeds, printed) = r.prints (unfold values in opens.1) given in
                  (
                    succeeds,
                    printed
                        ∙ ap (λ xs. xs ++ report fopen (values cells)) (f.prints given)
                        ∙ unfold values in report_cons s.printed name content (values cells) e,
                  );
            }
      ]
