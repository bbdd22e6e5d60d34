-- ===== src/Stdio/Bytewise.antt =====
-- An `fgets` that reads byte by byte, for concrete inputs.
use ganos.Base.{
  ℕ, zero, suc, ◌-◌, ◌<◌, ◌≡◌, ◌≢◌, refl, ap, ◌∙◌, arith, List, [], ◌∷◌, ◌++◌, ◌==◌, if◌then◌else◌,
  Bool, true, false, sym, append_assoc, append-nil, none, some, length, All,
}
use ganos.Stdio.{Fetched, Fgets, IsFgets}

abbrev pub record_of : Bool → List ℕ → List ℕ → Fetched
record_of true [] left = record { read = none; left = left; eof = true }
record_of true (c ∷ cs) left = record { read = some (c ∷ cs); left = left; eof = true }
record_of false cs left = record { read = some cs; left = left; eof = false }

-- Up to `k` bytes, read behind `before`.
abbrev pub bytewise : List ℕ → ℕ → List ℕ → Fetched
bytewise before zero stream = record_of false before stream
bytewise before (suc k) [] = record_of true before []
bytewise before (suc k) (c ∷ stream) =
    let rest = bytewise (before ++ c ∷ []) k stream in
    if c == 10 then record_of false (before ++ c ∷ []) stream else rest

bytewise-newline :
    (before : List ℕ) (k : ℕ) (pre left : List ℕ)
    → All (λ c. c ≢ 10) pre
    → length pre < k
    → bytewise before k (pre ++ 10 ∷ left) ≡ record_of false (before ++ (pre ++ 10 ∷ [])) left
bytewise-newline before zero pre left h fits = absurd (omega (arith, fits))
bytewise-newline before (suc k) [] left h fits = refl
bytewise-newline before (suc k) (c ∷ pre) left h fits =
    ground (arith, h.0, bytewise-newline (before ++ c ∷ []) k pre left h.1 (omega arith))
    ∙ ap (λ cs. record_of false cs left) (append_assoc before (c ∷ []) (pre ++ 10 ∷ []))

bytewise-full :
    (before : List ℕ) (k : ℕ) (pre left : List ℕ)
    → All (λ c. c ≢ 10) pre
    → length pre ≡ k
    → bytewise before k (pre ++ left) ≡ record_of false (before ++ pre) left
bytewise-full before zero [] left h fits =
    ap (λ cs. record_of false cs left) (sym (append-nil before))
bytewise-full before zero (c ∷ pre) left h fits = absurd (omega (arith, fits))
bytewise-full before (suc k) [] left h fits = absurd (omega (arith, fits))
bytewise-full before (suc k) (c ∷ pre) left h fits =
    ground (arith, h.0, bytewise-full (before ++ c ∷ []) k pre left h.1 (omega arith))
    ∙ ap (λ cs. record_of false cs left) (append_assoc before (c ∷ []) pre)

bytewise-ended :
    (before : List ℕ) (k : ℕ) (pre : List ℕ)
    → All (λ c. c ≢ 10) pre
    → length pre < k
    → bytewise before k pre ≡ record_of true (before ++ pre) []
bytewise-ended before zero pre h fits = absurd (omega (arith, fits))
bytewise-ended before (suc k) [] h fits = ap (λ cs. record_of true cs []) (sym (append-nil before))
bytewise-ended before (suc k) (c ∷ pre) h fits =
    ground (arith, h.0, bytewise-ended (before ++ c ∷ []) k pre h.1 (omega arith))
    ∙ ap (λ cs. record_of true cs []) (append_assoc before (c ∷ []) pre)

abbrev pub fgets_bytewise : Fgets
fgets_bytewise n = bytewise [] (n - 1)

pub bytewise-IsFgets : IsFgets fgets_bytewise
bytewise-IsFgets = record {
  newline = λ n pre left h fits. bytewise-newline [] (n - 1) pre left h (omega arith);
  full = λ n pre left h fits some_left. bytewise-full [] (n - 1) pre left h (omega arith);
  ended = λ n c pre h fits. bytewise-ended [] (n - 1) (c ∷ pre) h (omega arith);
  nothing = λ n fits. bytewise-ended [] (n - 1) [] (record {}) (omega arith);
}
