-- ===== src/Amake/Chain.antt =====
-- The heap that holds a list of names as linked structures, and what the operations do to it.
pub mod Configure
pub mod Operands
pub mod Exit
pub mod Main
pub mod Unlinked
mod Tests
use ganos.Base.{
  ℕ, zero, suc, ◌+◌, ◌≡◌, ◌≢◌, refl, sym, ap, ap₂, ◌∙◌, fun_ext, arith, List, [], ◌∷◌, ◌++◌, ◌==◌,
  if◌then◌else◌, Bool, true, false, Option, none, some,
}
use ganos.Base.Run.{Run, done, ◌>>=◌}
use ganos.Amake.{Pointer, unset, null, to, Str, Heap, put, State, set_next, link, cleanup}

-- Addresses with the names at them, in the order of the list.
abbrev pub Cells : Type 0
Cells = List (ℕ × List ℕ)

abbrev pub head_of : Cells → Pointer
head_of [] = null
head_of ((p, name) ∷ cells) = to p

abbrev pub last_of : Cells → Pointer
last_of [] = null
last_of ((p, name) ∷ []) = to p
last_of ((p, name) ∷ cell ∷ cells) = last_of (cell ∷ cells)

abbrev pub str : List ℕ → Pointer → Str
str name next = record { value = some name; next = next }

-- Nothing but the structures of the list, the last one with a null pointer.
pub heap_of : Cells → Heap
heap_of [] = λ p. none
heap_of ((p, name) ∷ cells) = put (heap_of cells) p (some (str name (head_of cells)))

abbrev pub NotIn : ℕ → Cells → Type 0
NotIn p [] = Unit
NotIn p ((q, name) ∷ cells) = (p ≢ q) × NotIn p cells

abbrev pub Nodup : Cells → Type 0
Nodup [] = Unit
Nodup ((p, name) ∷ cells) = NotIn p cells × Nodup cells

pub values : Cells → List (List ℕ)
values [] = []
values ((p, name) ∷ cells) = name ∷ values cells

pub put-put : (h : Heap) (p : ℕ) (a b : Option Str) → put (put h p a) p b ≡ put h p b
put-put h p a b = fun_ext λ q. ground arith

put_comm :
    (h : Heap) (p q : ℕ) (a b : Option Str) → p ≢ q → put (put h p a) q b ≡ put (put h q b) p a
put_comm h p q a b ne = fun_ext λ r. ground arith

pub heap_of-none : (cells : Cells) (p : ℕ) → NotIn p cells → heap_of cells p ≡ none
unfolding heap_of
heap_of-none [] p out = refl
heap_of-none ((q, name) ∷ cells) p out = ground (arith, out.0, heap_of-none cells p out.1)

-- A free address that is written and cleared is as before.
pub put-none :
    (cells : Cells) (p : ℕ) (a : Option Str)
    → NotIn p cells
    → put (put (heap_of cells) p a) p none ≡ heap_of cells
put-none cells p a out = fun_ext λ q. ground (arith, heap_of-none cells p out)

-- Freeing the first structure leaves the others.
pub heap_of-free :
    (p : ℕ) (name : List ℕ) (cells : Cells)
    → NotIn p cells
    → put (heap_of ((p, name) ∷ cells)) p none ≡ heap_of cells
unfolding heap_of
heap_of-free p name cells out = put-none cells p (some (str name (head_of cells))) out

-- A new structure behind the last one.
abbrev linked : Heap → Cells → ℕ → List ℕ → Heap
linked h [] p name = put h p (some (str name null))
linked h ((q, v) ∷ []) p name = put (put h p (some (str name null))) q (some (str v (to p)))
linked h ((q, v) ∷ cell ∷ cells) p name = linked h (cell ∷ cells) p name

linked-put :
    (cells : Cells) (cell : ℕ × List ℕ) (h : Heap) (q p : ℕ) (a : Option Str) (name : List ℕ)
    → NotIn q (cell ∷ cells)
    → p ≢ q
    → linked (put h q a) (cell ∷ cells) p name ≡ put (linked h (cell ∷ cells) p name) q a
linked-put [] (r, v) h q p a name out ne = fun_ext λ x. ground (arith, ne, out.0)
linked-put (c ∷ cells) cell h q p a name out ne = linked-put cells c h q p a name out.1 ne

linked-heap_of :
    (cells : Cells) (p : ℕ) (name : List ℕ)
    → Nodup cells
    → NotIn p cells
    → linked (heap_of cells) cells p name ≡ heap_of (cells ++ (p, name) ∷ [])
unfolding heap_of
linked-heap_of [] p name nodup out = refl
linked-heap_of ((q, v) ∷ []) p name nodup out = fun_ext λ x. ground (arith, out.0)
linked-heap_of ((q, v) ∷ cell ∷ cells) p name nodup out =
    linked-put cells cell (heap_of (cell ∷ cells)) q p (some (str v (to cell.0))) name nodup.0 out.0
    ∙ ap (λ h. put h q (some (str v (to cell.0))))
        (linked-heap_of (cell ∷ cells) p name nodup.1 out.1)

-- The structure at the end of the list has the null pointer.
abbrev LastIsNull : Heap → Cells → Type 0
LastIsNull h [] = Unit
LastIsNull h ((q, v) ∷ []) = h q ≡ some (str v null)
LastIsNull h (first ∷ cell ∷ cells) = LastIsNull h (cell ∷ cells)

LastIsNull-put :
    (cells : Cells) (h : Heap) (q : ℕ) (a : Option Str)
    → NotIn q cells
    → LastIsNull h cells
    → LastIsNull (put h q a) cells
LastIsNull-put [] h q a out last = last
LastIsNull-put ((r, v) ∷ []) h q a out last = ground (arith, out.0)
LastIsNull-put (first ∷ cell ∷ cells) h q a out last =
    LastIsNull-put (cell ∷ cells) h q a out.1 last

LastIsNull-heap_of : (cells : Cells) → Nodup cells → LastIsNull (heap_of cells) cells
unfolding heap_of
LastIsNull-heap_of [] nodup = tt
LastIsNull-heap_of ((q, v) ∷ []) nodup = ground arith
LastIsNull-heap_of ((q, v) ∷ cell ∷ cells) nodup =
    LastIsNull-put (cell ∷ cells) (heap_of (cell ∷ cells)) q _ nodup.0
      (LastIsNull-heap_of (cell ∷ cells) nodup.1)

link-last :
    (cells : Cells) (h : Heap) (p : ℕ) (name : List ℕ)
    → LastIsNull h cells
    → NotIn p cells
    → link (last_of cells) p (put h p (some (str name null))) ≡ done (linked h cells p name)
unfolding link
link-last [] h p name last out = refl
link-last ((q, v) ∷ []) h p name last out = ground (arith, last, out.0)
link-last (first ∷ cell ∷ cells) h p name last out = link-last (cell ∷ cells) h p name last out.1

-- What `configure` does with a new structure gives the heap of the longer list.
pub link-heap_of :
    (cells : Cells) (p : ℕ) (name : List ℕ)
    → Nodup cells
    → NotIn p cells
    → link (last_of cells) p (put (heap_of cells) p (some (str name null)))
      ≡ done (heap_of (cells ++ (p, name) ∷ []))
link-heap_of cells p name nodup out =
    link-last cells (heap_of cells) p name (LastIsNull-heap_of cells nodup) out
    ∙ ap done (linked-heap_of cells p name nodup out)
