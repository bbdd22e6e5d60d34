-- ===== src/Gpt/Image.antt =====
-- The device behind the writes: what a later write leaves of an earlier one.
use ganos.Base.{
  ℕ, ◌+◌, ◌≤◌, ◌<◌, ◌≡◌, refl, ap₂, ◌∙◌, arith, List, [], ◌∷◌, length, Mem, store, bytes, bytes_ext,
  All, ◌⊎◌, inl, inr,
}
use ganos.Gpt.{Write}
use ganos.Gpt.Layout.{IsLaidOut}

-- `fwrite` at an offset.
overwrite : Mem → ℕ → List ℕ → Mem
overwrite m a [] = m
overwrite m a (c ∷ cs) = overwrite (store m a c) (a + 1) cs

-- The bytes of the device after the writes, from those before.
pub image : List Write → Mem → Mem
unfolding overwrite
image [] m = m
image (w ∷ ws) m = image ws (overwrite m w.offset w.content)

overwrite-outside :
    (m : Mem) (a k : ℕ) (cs : List ℕ) → (k < a) ⊎ (a + length cs ≤ k) → overwrite m a cs k ≡ m k
unfolding overwrite
overwrite-outside m a k [] h = refl
overwrite-outside m a k (c ∷ cs) (inl h) =
    overwrite-outside (store m a c) (a + 1) k cs (inl (omega arith)) ∙ ground arith
overwrite-outside m a k (c ∷ cs) (inr h) =
    overwrite-outside (store m a c) (a + 1) k cs (inr (omega arith)) ∙ ground arith

bytes-overwrite : (m : Mem) (a : ℕ) (cs : List ℕ) → bytes (overwrite m a cs) a (length cs) ≡ cs
unfolding overwrite
bytes-overwrite m a [] = refl
bytes-overwrite m a (c ∷ cs) =
    ap₂ (λ (x : ℕ) (xs : List ℕ). x ∷ xs)
      (overwrite-outside (store m a c) (a + 1) a cs (inl (omega arith)) ∙ ground arith)
      (bytes-overwrite (store m a c) (a + 1) cs)

-- A byte that no write covers.
abbrev pub Outside : ℕ → List Write → Type 0
Outside k ws = All (λ (w : Write). (k < w.offset) ⊎ (w.offset + length w.content ≤ k)) ws

pub image-Outside : (ws : List Write) (m : Mem) (k : ℕ) → Outside k ws → image ws m k ≡ m k
unfolding image
image-Outside [] m k h = refl
image-Outside (w ∷ ws) m k h =
    image-Outside ws (overwrite m w.offset w.content) k h.1
    ∙ overwrite-outside m w.offset k w.content h.0

IsLaidOut-Outside :
    (start size k : ℕ) (ws : List Write) → IsLaidOut start ws size → k < start → Outside k ws
unfolding IsLaidOut
IsLaidOut-Outside start size k [] h before = record {}
IsLaidOut-Outside start size k (w ∷ ws) h before = (
  inl (omega (arith, h.0)),
  IsLaidOut-Outside (w.offset + length w.content) size k ws h.1 (omega (arith, h.0)),
)

-- The `n` bytes of the device from `a` on, as `bytes`, but shut: regions are long.
pub region : Mem → ℕ → ℕ → List ℕ
region m a n = bytes m a n

-- The bytes that a write stores are there.
abbrev pub Holds : Mem → Write → Type 0
Holds m w = region m w.offset (length w.content) ≡ w.content

-- Behind writes that lie one behind the other, all of them are there.
pub image-Holds :
    (start size : ℕ) (ws : List Write) (m : Mem)
    → IsLaidOut start ws size
    → All (Holds (image ws m)) ws
unfolding image IsLaidOut region
image-Holds start size [] m h = record {}
image-Holds start size (w ∷ ws) m h =
    let end = w.offset + length w.content in
    let m' = overwrite m w.offset w.content in
    (
      bytes_ext (image ws m') m' (length w.content) w.offset
            (λ k low high. image-Outside ws m' k (IsLaidOut-Outside end size k ws h.1 high))
          ∙ bytes-overwrite m w.offset w.content,
      image-Holds end size ws m' h.1,
    )
