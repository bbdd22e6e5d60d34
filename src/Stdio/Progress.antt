-- ===== src/Stdio/Progress.antt =====
-- What one call of `fgets` reads of any stream: a piece of it, unless nothing is left.
use ganos.Base.{
  ℕ, zero, suc, ◌+◌, ◌-◌, ◌||◌, if◌then◌else◌, ◌≤◌, ◌<◌, ◌≡◌, ◌≢◌, refl, ap, ◌∙◌, arith, List, [],
  ◌∷◌, ◌++◌, ◌==◌, Bool, Bool-cases, true, false, some, length, length-append, All, inl, inr,
}
use ganos.Stdio.{Fgets, IsFgets}

-- The first `k` bytes of a stream, up to a line feed or the end.
data Front (k : ℕ) (stream : List ℕ) : Type 0 where
  a_line :
      (pre left : List ℕ)
      → stream ≡ pre ++ 10 ∷ left
      → All (λ c. c ≢ 10) pre
      → length pre < k
      → Front k stream
  a_part :
      (pre left : List ℕ)
      → stream ≡ pre ++ left
      → All (λ c. c ≢ 10) pre
      → length pre ≡ k
      → Front k stream
  the_rest : All (λ c. c ≢ 10) stream → length stream < k → Front k stream

front-cons : (k c : ℕ) (stream : List ℕ) → c ≢ 10 → Front k stream → Front (suc k) (c ∷ stream)
front-cons k c stream h (a_line pre left joins plain fits) =
    a_line (c ∷ pre) left (ap (λ cs. c ∷ cs) joins) (h, plain) (omega arith)
front-cons k c stream h (a_part pre left joins plain fits) =
    a_part (c ∷ pre) left (ap (λ cs. c ∷ cs) joins) (h, plain) (omega arith)
front-cons k c stream h (the_rest plain fits) = the_rest (h, plain) (omega arith)

front : (k : ℕ) (stream : List ℕ) → Front k stream
front zero stream = a_part [] stream refl (record {}) refl
front (suc k) [] = the_rest (record {}) (omega arith)
front (suc k) (c ∷ stream) = elim (Bool-cases (c == 10)) [
  | inl here ↦
      a_line [] stream (let e : c ≡ 10 = ground (arith, here) in rw e refl) (record {})
        (omega arith)
  | inr other ↦ front-cons k c stream (ground (arith, other)) (front k stream)
]

-- In how many pieces a stream is read, each of at most `n` bytes and ended by the first line feed in
-- it; `k` bytes of the first one have been passed already.
unfoldable pub pieces : ℕ → ℕ → List ℕ → ℕ
pieces n k [] = if k == 0 then 0 else 1
pieces n k (c ∷ cs) = elim (c == 10 || k + 1 == n) [
  | true ↦ suc (pieces n 0 cs)
  | false ↦ pieces n (k + 1) cs
]

pieces-line :
    (n k : ℕ) (pre left : List ℕ)
    → All (λ c. c ≢ 10) pre
    → k + length pre < n
    → pieces n k (pre ++ 10 ∷ left) ≡ suc (pieces n 0 left)
unfolding pieces
pieces-line n k [] left plain fits = refl
pieces-line n k (c ∷ pre) left plain fits = ground (arith, pieces-line n (k + 1) pre left plain.1)

pieces-part :
    (n k : ℕ) (pre left : List ℕ)
    → All (λ c. c ≢ 10) pre
    → k + length pre ≡ n
    → k < n
    → pieces n k (pre ++ left) ≡ suc (pieces n 0 left)
unfolding pieces
pieces-part n k [] left plain fits more = absurd (omega arith)
pieces-part n k (c ∷ []) left plain fits more = ground arith
pieces-part n k (c ∷ d ∷ pre) left plain fits more =
    ground (arith, pieces-part n (k + 1) (d ∷ pre) left plain.1 (omega arith) (omega arith))

pieces-rest :
    (n k : ℕ) (stream : List ℕ)
    → All (λ c. c ≢ 10) stream
    → k + length stream < n
    → 0 < k + length stream
    → pieces n k stream ≡ suc (pieces n 0 [])
unfolding pieces
pieces-rest n k [] plain fits some_left = ground arith
pieces-rest n k (c ∷ stream) plain fits some_left =
    ground (arith, pieces-rest n (k + 1) stream plain.1)

-- What a call with the size `n` reads, if there is something left.
pub record Piece (fgets : Fgets) (n : ℕ) (stream : List ℕ) : Type 0 where
  pub cs : List ℕ
  pub left : List ℕ
  pub eof : Bool
  pub reads : fgets n stream ≡ record { read = some cs; left = left; eof = eof }
  pub fits : length cs < n
  pub shorter : length left < length stream
  pub counted : pieces (n - 1) 0 stream ≡ suc (pieces (n - 1) 0 left)

module _ (fgets : Fgets) (is : IsFgets fgets) where
  front-Piece :
      (n c : ℕ) (stream : List ℕ) → 2 ≤ n → Front (n - 1) (c ∷ stream) → Piece fgets n (c ∷ stream)
  front-Piece n c stream big (a_line pre left joins plain fits) = record {
    cs = pre ++ 10 ∷ [];
    left = left;
    eof = false;
    reads = ap (fgets n) joins ∙ is.newline n pre left plain (omega arith);
    fits = omega (arith, length-append pre (10 ∷ []));
    shorter = omega (arith, ap length joins ∙ length-append pre (10 ∷ left));
    counted = ap (pieces (n - 1) 0) joins ∙ pieces-line (n - 1) 0 pre left plain (omega arith);
  }
  front-Piece n c stream big (a_part pre left joins plain fits) = record {
    cs = pre;
    left = left;
    eof = false;
    reads = ap (fgets n) joins ∙ is.full n pre left plain (omega arith) big;
    fits = omega arith;
    shorter = omega (arith, ap length joins ∙ length-append pre left);
    counted =
        ap (pieces (n - 1) 0) joins
        ∙ pieces-part (n - 1) 0 pre left plain (omega arith) (omega arith);
  }
  front-Piece n c stream big (the_rest plain fits) = record {
    cs = c ∷ stream;
    left = [];
    eof = true;
    reads = is.ended n c stream plain (omega arith);
    fits = omega arith;
    shorter = omega arith;
    counted = pieces-rest (n - 1) 0 (c ∷ stream) plain (omega arith) (omega arith);
  }

  pub piece : (n c : ℕ) (stream : List ℕ) → 2 ≤ n → Piece fgets n (c ∷ stream)
  piece n c stream big = front-Piece n c stream big (front (n - 1) (c ∷ stream))
