-- ===== src/Lex/Strip.antt =====
-- The functions strip_ws of usr/bin/lex/main.c on a block of memory, whose offsets stand for the
-- pointers; a pointer in front of the block is undefined. Nothing calls them.
use ganos.Base.{
  ℕ, zero, suc, ◌+◌, ◌-◌, ◌≤◌, ◌<◌, ◌≡◌, ◌≢◌, refl, ap, ◌∙◌, sym, arith, Bool, true, false, not,
  ◌||◌, ◌&&◌, ◌==◌, ltb, leb, if◌then◌else◌, Mem, store, inl, inr, Bool-cases,
}
use ganos.Base.Run.{Run, done, undefined, ◌>>=◌}

-- The NUL of the string at `a`, in the `n` bytes that the block has from there.
string_end : ℕ → Mem → ℕ → Run ℕ
string_end zero m a = undefined
string_end (suc n) m a = let rest = string_end n m (a + 1) in if m a == 0 then done a else rest

module _ (isspace : ℕ → Bool) where
  -- `for (; str != c && isspace(*c); c--) *c = '\0'`.
  clear_back : ℕ → Mem → ℕ → Run Mem
  clear_back str m zero = if str == 0 || not (isspace (m 0)) then done m else undefined
  clear_back str m (suc c) =
      let rest = clear_back str (store m (suc c) 0) c in
      if str == suc c || not (isspace (m (suc c))) then done m else rest

  -- From the NUL back, which a string at the start of the block does not allow if it is empty.
  before_end : ℕ → Mem → ℕ → Run Mem
  unfolding clear_back
  before_end str m zero = undefined
  before_end str m (suc c) = clear_back str m c

  strip_ws_trailing : ℕ → Mem → ℕ → Run (ℕ × Mem)
  unfolding string_end before_end
  strip_ws_trailing size m str =
      string_end (size - str) m str >>= λ e. before_end str m e >>= λ m'. done (str, m')

  -- The loop of `strip_ws_leading`, with `n` bytes of the block from `a` on.
  skip_ws : ℕ → Mem → ℕ → Run ℕ
  skip_ws zero m a = undefined
  skip_ws (suc n) m a =
      let rest = skip_ws n m (a + 1) in if m a == 0 || not (isspace (m a)) then done a else rest

  strip_ws_leading : ℕ → Mem → ℕ → Run ℕ
  unfolding skip_ws
  strip_ws_leading size m str = skip_ws (size - str) m str

  pub strip_ws : ℕ → Mem → ℕ → Run (ℕ × Mem)
  unfolding strip_ws_leading strip_ws_trailing
  strip_ws size m str = strip_ws_leading size m str >>= λ a. strip_ws_trailing size m a

  -- From `a` to before `e` there are blanks, which are no NULs.
  abbrev pub Blank : Mem → ℕ → ℕ → Type 0
  Blank m a e = (i : ℕ) → a ≤ i → i < e → (isspace (m i) ≡ true) × (m i ≢ 0)

  string_end_lem :
      (n : ℕ) (m : Mem) (a e : ℕ)
      → a ≤ e
      → e < a + n
      → ((i : ℕ) → a ≤ i → i < e → m i ≢ 0)
      → m e ≡ 0
      → string_end n m a ≡ done e
  unfolding string_end
  string_end_lem zero m a e from inside h nul = absurd (omega (arith, inside))
  string_end_lem (suc n) m a e from inside h nul = elim (Bool-cases (a == e)) [
    | inl here ↦ let same : a ≡ e = ground (arith, here) in rw same (ground (arith, nul))
    | inr later ↦ ground (
      arith,
      h a (omega arith) (ground (arith, later)),
      string_end_lem n m (a + 1) e (ground (arith, later)) (omega arith)
          (λ i p q. h i (omega arith) q) nul,
    )
  ]

  skip_ws_lem :
      (n : ℕ) (m : Mem) (a e : ℕ)
      → a ≤ e
      → e < a + n
      → Blank m a e
      → (m e == 0 || not (isspace (m e))) ≡ true
      → skip_ws n m a ≡ done e
  unfolding skip_ws
  skip_ws_lem zero m a e from inside h stop = absurd (omega (arith, inside))
  skip_ws_lem (suc n) m a e from inside h stop = elim (Bool-cases (a == e)) [
    | inl here ↦ let same : a ≡ e = ground (arith, here) in rw same (ground (arith, stop))
    | inr later ↦
        let blank = h a (omega arith) (ground (arith, later)) in
        ground (
          arith,
          blank.0,
          blank.1,
          skip_ws_lem n m (a + 1) e (ground (arith, later)) (omega arith)
              (λ i p q. h i (omega arith) q) stop,
        )
  ]

  Blank-store : (m : Mem) (a e k : ℕ) → e ≤ k → Blank m a (suc k) → Blank (store m k 0) a e
  Blank-store m a e k behind h i p q =
      let same : m i ≡ store m k 0 i = ground arith in rw (sym same) (h i p (omega arith))

  clear_back-Blank :
      (str c : ℕ) (m : Mem) → c < str → Blank m 0 (suc c) → clear_back str m c ≡ undefined
  unfolding clear_back
  clear_back-Blank str zero m front h = ground (arith, (h 0 (omega arith) (omega arith)).0)
  clear_back-Blank str (suc c) m front h = ground (
    arith,
    (h (suc c) (omega arith) (omega arith)).0,
    clear_back-Blank str c (store m (suc c) 0) (omega arith)
        (Blank-store m 0 (suc c) (suc c) (omega arith) h),
  )

  -- A string of white space alone is stripped past its start.
  strip_ws-Blank :
      (size e : ℕ) (m : Mem) → e < size → Blank m 0 e → m e ≡ 0 → strip_ws size m 0 ≡ undefined
  unfolding strip_ws strip_ws_leading strip_ws_trailing before_end
  strip_ws-Blank size zero m inside h nul =
      ap (λ r. r >>= λ a. strip_ws_trailing size m a)
        (skip_ws_lem (size - 0) m 0 0 (omega arith) (omega arith) h (ground (arith, nul)))
      ∙ ap (λ r. r >>= λ e. before_end 0 m e >>= λ m'. done (0, m'))
          (string_end_lem (size - 0) m 0 0 (omega arith) (omega arith)
            (λ i p q. absurd (omega arith)) nul)
  strip_ws-Blank size (suc e) m inside h nul =
      ap (λ r. r >>= λ a. strip_ws_trailing size m a)
        (skip_ws_lem (size - 0) m 0 (suc e) (omega arith) (omega arith) h (ground (arith, nul)))
      ∙ ap (λ r. r >>= λ k. before_end (suc e) m k >>= λ m'. done (suc e, m'))
          (string_end_lem (size - suc e) m (suc e) (suc e) (omega arith) (omega arith)
            (λ i p q. absurd (omega arith)) nul)
      ∙ ap (λ r. r >>= λ m'. done (suc e, m')) (clear_back-Blank (suc e) e m (omega arith) h)

  -- The bytes behind `j` up to `c` are cleared.
  abbrev pub Cleared : Mem → ℕ → ℕ → Mem → Type 0
  Cleared m j c m' = (k : ℕ) → m' k ≡ (if ltb j k && leb k c then 0 else m k)

  clear_back_lem :
      (str j c : ℕ) (m : Mem)
      → str ≤ j
      → j ≤ c
      → isspace (m j) ≡ false
      → Blank m (suc j) (suc c)
      → (m' : Mem) × (clear_back str m c ≡ done m') × Cleared m j c m'
  unfolding clear_back
  clear_back_lem str j zero m from before solid h =
      let first : j ≡ 0 = omega arith in (m, ground (arith, from, first), λ k. ground arith)
  clear_back_lem str j (suc c) m from before solid h = elim (Bool-cases (j == suc c)) [
    | inl here ↦
        let at_c : isspace (m (suc c)) ≡ false =
          let e : suc c ≡ j = ground (arith, here) in rw e solid in
        (m, ground (arith, at_c), λ k. ground (arith, here))
    | inr later ↦
        let kept : m j ≡ store m (suc c) 0 j = ground (arith, later) in
        let (m', runs, cleared) =
          clear_back_lem str j c (store m (suc c) 0) from (ground (arith, later))
            (rw (sym kept) solid) (Blank-store m (suc j) (suc c) (suc c) (omega arith) h) in
        (
          m',
          ground (arith, later, (h (suc c) (ground (arith, later)) (omega arith)).0, runs),
          λ k. cleared k ∙ ground (arith, later),
        )
  ]

  -- Of a string from the start of the block, in which `a` is the first byte that is no white space
  -- and `j` the last one, `strip_ws` returns `a` and clears what follows `j`: every other byte stays.
  pub strip_ws_lem :
      (size a j e : ℕ) (m : Mem)
      → e < size
      → a ≤ j
      → j < e
      → Blank m 0 a
      → isspace (m a) ≡ false
      → isspace (m j) ≡ false
      → Blank m (suc j) e
      → ((i : ℕ) → i < e → m i ≢ 0)
      → m e ≡ 0
      → (m' : Mem) × (strip_ws size m 0 ≡ done (a, m')) × Cleared m j (e - 1) m'
  unfolding strip_ws strip_ws_leading strip_ws_trailing before_end
  strip_ws_lem size a j zero m inside order below front first solid behind text nul =
      absurd (omega (arith, below))
  strip_ws_lem size a j (suc e) m inside order below front first solid behind text nul =
      let (m', runs, cleared) = clear_back_lem a j e m order (omega arith) solid behind in
      (
        m',
        ap (λ r. r >>= λ a. strip_ws_trailing size m a)
              (skip_ws_lem (size - 0) m 0 a (omega arith) (omega arith) front
                (ground (arith, first)))
            ∙ ap (λ r. r >>= λ k. before_end a m k >>= λ m'. done (a, m'))
                (string_end_lem (size - a) m a (suc e) (omega arith) (omega arith)
                  (λ i p q. text i q) nul)
            ∙ ap (λ r. r >>= λ m'. done (a, m')) runs,
        λ k. cleared k ∙ (let back : suc e - 1 ≡ e = omega arith in rw back refl),
      )
