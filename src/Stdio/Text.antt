-- ===== src/Stdio/Text.antt =====
-- C strings in a block: what a store of bytes and a NUL leaves to be read.
use ganos.Base.{
  ◌≤◌, length-append, ℕ, zero, suc, ◌+◌, ◌<◌, ◌≡◌, ◌≢◌, refl, ap, ◌∙◌, arith, List, [], ◌∷◌, ◌++◌,
  Mem, store, some, length, All,
}
use ganos.Base.Run.{Run, ◌>>=◌}
use ganos.Getdelim.{Buffer}
use ganos.Stdio.{text, put_text, place, text_of, block}

-- A byte of a line: no line feed and no NUL.
abbrev pub IsPlain : ℕ → Type 0
IsPlain c = (c ≢ 10) × (c ≢ 0) × (c < 256)

-- The bytes before `a` stay.
put_text-before : (m : Mem) (a k : ℕ) (cs : List ℕ) → k < a → put_text m a cs k ≡ m k
unfolding put_text
put_text-before m a k [] before = ground arith
put_text-before m a k (c ∷ cs) before =
    put_text-before (store m a c) (a + 1) k cs (omega arith) ∙ ground arith

-- The bytes from `a` on are those of the list, none of which is a NUL.
abbrev pub Starts : Mem → ℕ → List ℕ → Type 0
Starts m a [] = Unit
Starts m a (c ∷ cs) = (m a ≡ c) × (c ≢ 0) × Starts m (a + 1) cs

put_text-nul : (m : Mem) (a : ℕ) (cs : List ℕ) → put_text m a cs (a + length cs) ≡ 0
unfolding put_text
put_text-nul m a [] = ground arith
put_text-nul m a (c ∷ cs) =
    ap (put_text (store m a c) (a + 1) cs) (omega arith) ∙ put_text-nul (store m a c) (a + 1) cs

pub put_text-Starts :
    (m : Mem) (a : ℕ) (cs : List ℕ) → All (λ c. c ≢ 0) cs → Starts (put_text m a cs) a cs
unfolding put_text
put_text-Starts m a [] h = record {}
put_text-Starts m a (c ∷ cs) h = (
  put_text-before (store m a c) (a + 1) a cs (omega arith) ∙ ground arith,
  h.0,
  put_text-Starts (store m a c) (a + 1) cs h.1,
)

pub Starts-append :
    (m : Mem) (a b : ℕ) (s cs : List ℕ)
    → Starts m a s
    → b ≡ a + length s
    → All (λ c. c ≢ 0) cs
    → Starts (put_text m b cs) a (s ++ cs)
Starts-append m a b [] cs starts here h =
    let e : b ≡ a = omega (arith, here) in rw e (put_text-Starts m a cs h)
Starts-append m a b (c ∷ s) cs starts here h = (
  put_text-before m b a cs (omega (arith, here)) ∙ starts.0,
  starts.1,
  Starts-append m (a + 1) b s cs starts.2 (here ∙ omega arith) h,
)

pub text-Starts :
    (n : ℕ) (m : Mem) (a : ℕ) (s : List ℕ)
    → Starts m a s
    → m (a + length s) ≡ 0
    → length s < n
    → text n m a ≡ some s
unfolding text
text-Starts zero m a s starts nul fits = absurd (omega (arith, fits))
text-Starts (suc n) m a [] starts nul fits =
    let e : m a ≡ m (a + 0) = ap m (omega arith) in ground (arith, nul, e)
text-Starts (suc n) m a (c ∷ s) starts nul fits =
    let e : m (a + 1 + length s) ≡ m (a + suc (length s)) = ap m (omega arith) in
    ground (arith, starts.0, starts.1, text-Starts n m (a + 1) s starts.2 (e ∙ nul) (omega arith))

-- Stored behind a text, bytes prolong it.
pub text-put_text :
    (m : Mem) (n : ℕ) (s cs : List ℕ)
    → Starts m 0 s
    → All (λ c. c ≢ 0) cs
    → length s + length cs < n
    → text n (put_text m (length s) cs) 0 ≡ some (s ++ cs)
text-put_text m n s cs starts h fits =
    let end : 0 + length (s ++ cs) ≡ length s + length cs = omega (arith, length-append s cs) in
    text-Starts n (put_text m (length s) cs) 0 (s ++ cs)
      (Starts-append m 0 (length s) s cs starts (omega arith) h)
      (ap (put_text m (length s) cs) end ∙ put_text-nul m (length s) cs) (omega (arith, end))

pub All-nonzero : (cs : List ℕ) → All IsPlain cs → All (λ c. c ≢ 0) cs
All-nonzero [] h = record {}
All-nonzero (c ∷ cs) h = (h.0.1, All-nonzero cs h.1)

pub All-nonzero-line : (cs : List ℕ) → All IsPlain cs → All (λ c. c ≢ 0) (cs ++ 10 ∷ [])
All-nonzero-line [] h = (omega arith, record {})
All-nonzero-line (c ∷ cs) h = (h.0.1, All-nonzero-line cs h.1)

pub All-no_newline : (cs : List ℕ) → All IsPlain cs → All (λ c. c ≢ 10) cs
All-no_newline [] h = record {}
All-no_newline (c ∷ cs) h = (h.0.0, All-no_newline cs h.1)

pub All-append : (xs ys : List ℕ) → All IsPlain xs → All IsPlain ys → All IsPlain (xs ++ ys)
All-append [] ys h h' = h'
All-append (x ∷ xs) ys h h' = (h.0, All-append xs ys h.1 h')

-- A list cut behind its first `k` elements.
pub record Cut (xs : List ℕ) (k : ℕ) : Type 0 where
  pub front : List ℕ
  pub back : List ℕ
  pub joins : xs ≡ front ++ back
  pub measure : length front ≡ k
  pub front_plain : All IsPlain front
  pub back_plain : All IsPlain back

pub cut : (xs : List ℕ) (k : ℕ) → k ≤ length xs → All IsPlain xs → Cut xs k
cut xs zero fits h = record {
  front = [];
  back = xs;
  joins = refl;
  measure = refl;
  front_plain = record {};
  back_plain = h;
}
cut [] (suc k) fits h = absurd (omega (arith, fits))
cut (x ∷ xs) (suc k) fits h =
    let c = cut xs k (omega arith) h.1 in
    record {
      front = x ∷ c.front;
      back = c.back;
      joins = ap (λ ys. x ∷ ys) c.joins;
      measure = ap suc c.measure;
      front_plain = (h.0, c.front_plain);
      back_plain = c.back_plain;
    }

-- `place` behind a text, then the reading of it.
pub place_text {ℓ} :
    {A : Type ℓ} (m : Mem) (n : ℕ) (s cs : List ℕ) (next : Buffer → List ℕ → Run A)
    → Starts m 0 s
    → All (λ c. c ≢ 0) cs
    → length s + length cs < n
    → (place (length s) (some cs) (block m n) >>= λ b. text_of b >>= λ line. next b line)
      ≡ next (block (put_text m (length s) cs) n) (s ++ cs)
unfolding place text_of
place_text m n s cs next starts h fits = ground (arith, fits, text-put_text m n s cs starts h fits)
