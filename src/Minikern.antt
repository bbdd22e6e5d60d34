-- ===== src/Minikern.antt =====
-- boot/x86/bootld/minikern/entry.c: a kernel that writes one line at the start of the text screen.
use ganos.Base.{
  ℕ, ◌+◌, ◌<◌, ◌≡◌, refl, ap₂, ◌∙◌, arith, List, [], ◌∷◌, length, Mem, store, bytes, codes,
}

-- `*vbuf++ = *c` for the characters before the NUL: `vbuf` and the memory.
write_line : List ℕ → ℕ × Mem → ℕ × Mem
write_line [] s = s
write_line (c ∷ cs) (vbuf, m) = write_line cs (vbuf + 1, store m vbuf c)

-- `_start`, up to the `halt` that ends it.
start : Mem → ℕ × Mem
unfolding write_line
start m = write_line (codes "Welcome to minikern!") (0xB8000, m)

write_line-before :
    (cs : List ℕ) (vbuf k : ℕ) (m : Mem) → k < vbuf → (write_line cs (vbuf, m)).1 k ≡ m k
unfolding write_line
write_line-before [] vbuf k m h = refl
write_line-before (c ∷ cs) vbuf k m h =
    write_line-before cs (vbuf + 1) k (store m vbuf c) (omega arith) ∙ ground arith

write_line-bytes :
    (cs : List ℕ) (vbuf : ℕ) (m : Mem) → bytes (write_line cs (vbuf, m)).1 vbuf (length cs) ≡ cs
unfolding write_line
write_line-bytes [] vbuf m = refl
write_line-bytes (c ∷ cs) vbuf m =
    ap₂ (λ (x : ℕ) (xs : List ℕ). x ∷ xs)
      (write_line-before cs (vbuf + 1) vbuf (store m vbuf c) (omega arith) ∙ ground arith)
      (write_line-bytes cs (vbuf + 1) (store m vbuf c))

-- The characters stand one behind the other, without room for their attributes: every second one
-- is where the screen expects the attribute of the one before.
start-bytes : (m : Mem) → bytes (start m).1 0xB8000 20 ≡ codes "Welcome to minikern!"
unfolding start
start-bytes m = write_line-bytes (codes "Welcome to minikern!") 0xB8000 m
