-- ===== src/Getdelim/Reads.antt =====
-- The loop of `getdelim`, up to the delimiter and up to the end of the stream.
use ganos.Base.{
  inr, ℕ, suc, ◌+◌, ◌-◌, ◌*◌, ◌≤◌, ◌<◌, ◌^◌, ◌≡◌, ◌≢◌, refl, sym, ap, ap₂, ◌∙◌, arith, List, [],
  ◌∷◌, ◌++◌, append_assoc, append-nil, ◌==◌, if◌then◌else◌, Bool, true, Mem, store, none, some, u64,
  length, All, bytes, bytes-suc, bytes-store,
}
use ganos.Base.Run.{done}
use ganos.Getdelim.{Caller, Outcome, unset, read_from}

add-suc : (n : ℕ) → n + 1 ≡ suc n
add-suc n = omega arith

bytes-end : (m : Mem) (n c : ℕ) → bytes (store m n c) 0 (suc n) ≡ bytes m 0 n ++ c ∷ []
bytes-end m n c =
    bytes-suc (store m n c) n 0
    ∙ ap₂ (λ (xs : List ℕ) (x : ℕ). xs ++ x ∷ []) (bytes-store m n 0 n c (inr (omega arith)))
        (ground arith)

-- The size of the block once there is room for two bytes behind `len`.
abbrev pub grown : ℕ → ℕ → ℕ
grown len n = if len == n - 2 then n + 12 else n

abbrev pub block : Mem → ℕ → Caller
block m n = record { line = some (record { bytes = m; size = n }); n = n }

-- Up to the first delimiter: the bytes read stand in the block, a NUL behind them.
pub record Terminated (m : Mem) (len : ℕ) (read stream : List ℕ) (o : Outcome) : Type 0 where
  pub mem : Mem
  pub size : ℕ
  pub returns : o ≡ record {
    ret = some (len + length read);
    caller = block mem size;
    stream = stream;
    errno = unset;
  }
  pub content : bytes mem 0 (len + length read) ≡ bytes m 0 len ++ read
  pub nul : mem (len + length read) ≡ 0
  pub inside : len + length read < size

-- At the end of the stream, with `k` bytes read.
abbrev pub ended_at : Mem → ℕ → ℕ → Outcome
ended_at mem size k = record {
  ret = (if k == 0 then none else some k);
  caller = block mem size;
  stream = [];
  errno = unset;
}

-- Up to the end of a stream without the delimiter: the bytes stand in the block, the byte behind
-- them is the one that was there.
pub record Ended (m : Mem) (len : ℕ) (read : List ℕ) (o : Outcome) : Type 0 where
  pub mem : Mem
  pub size : ℕ
  pub returns : o ≡ ended_at mem size (len + length read)
  pub content : bytes mem 0 (len + length read) ≡ bytes m 0 len ++ read
  pub behind : mem (len + length read) ≡ m (len + length read)

module _ (alloc : ℕ → Bool) (garbage : Mem) (enough : (n : ℕ) → alloc n ≡ true) where
  read_step :
      (delimiter c : ℕ) (stream : List ℕ) (len n : ℕ) (m : Mem)
      → c < 256
      → len + 2 ≤ n
      → n + 12 < 2 ^ 63
      → let m' = store m len c in
        let n' = grown len n in
        let rest = read_from alloc garbage delimiter stream (len + 1) (block m' n') in
        read_from alloc garbage delimiter (c ∷ stream) len (block m n) ≡ (
          if c == delimiter
          then done (record {
            ret = some (len + 1);
            caller = block (store m' (len + 1) 0) n';
            stream = stream;
            errno = unset;
          })
          else rest)
  unfolding read_from
  read_step delimiter c stream len n m byte fits small = ground (arith, enough (u64 (n + 12)))

  bytes-nul :
      (m : Mem) (len d : ℕ)
      → bytes (store (store m len d) (len + 1) 0) 0 (len + 1) ≡ bytes m 0 len ++ d ∷ []
  bytes-nul m len d =
      bytes-store (store m len d) (len + 1) 0 (len + 1) 0 (inr (omega arith))
      ∙ ap (bytes (store m len d) 0) (add-suc len)
      ∙ bytes-end m len d

  Terminated-step :
      (delimiter c : ℕ) (pre stream : List ℕ) (len : ℕ) (m : Mem) (o : Outcome)
      → Terminated (store m len c) (len + 1) (pre ++ delimiter ∷ []) stream o
      → Terminated m len (c ∷ pre ++ delimiter ∷ []) stream o
  Terminated-step delimiter c pre stream len m o t =
      let read = pre ++ delimiter ∷ [] in
      let shift : len + 1 + length read ≡ len + suc (length read) = omega arith in
      record {
        mem = t.mem;
        size = t.size;
        returns =
            t.returns
            ∙ ap
                (λ k. record {
                  ret = some k;
                  caller = block t.mem t.size;
                  stream = stream;
                  errno = unset;
                })
                shift;
        content =
            ap (bytes t.mem 0) (sym shift)
            ∙ t.content
            ∙ ap (λ k. bytes (store m len c) 0 k ++ read) (add-suc len)
            ∙ ap (λ xs. xs ++ read) (bytes-end m len c)
            ∙ append_assoc (bytes m 0 len) (c ∷ []) read;
        nul = ap t.mem (sym shift) ∙ t.nul;
        inside = omega arith;
      }

  pub read_from-Terminated :
      (delimiter : ℕ) (pre stream : List ℕ) (len n : ℕ) (m : Mem)
      → All (λ c. (c ≢ delimiter) × (c < 256)) pre
      → delimiter < 256
      → len + 2 ≤ n
      → n + 12 * suc (length pre) < 2 ^ 63
      → (o : Outcome) × (read_from alloc garbage delimiter
            (pre ++ delimiter ∷ stream)
            len
            (block m n)
          ≡ done o)
        × Terminated m len (pre ++ delimiter ∷ []) stream o
  read_from-Terminated delimiter [] stream len n m h byte fits small = (
    _,
    read_step delimiter delimiter stream len n m byte fits (omega arith) ∙ ground arith,
    record {
      mem = store (store m len delimiter) (len + 1) 0;
      size = grown len n;
      returns = refl;
      content = bytes-nul m len delimiter;
      nul = ground arith;
      inside = ground arith;
    },
  )
  read_from-Terminated delimiter (c ∷ pre) stream len n m h byte fits small =
      let (o, runs, t) =
        read_from-Terminated delimiter pre stream (len + 1) (grown len n) (store m len c) h.1 byte
          (ground arith) (ground arith) in
      (
        o,
        read_step delimiter c (pre ++ delimiter ∷ stream) len n m h.0.1 fits (omega arith)
            ∙ ground (arith, h.0.0)
            ∙ runs,
        Terminated-step delimiter c pre stream len m o t,
      )

  read_from-end :
      (delimiter len : ℕ) (a : Caller)
      → read_from alloc garbage delimiter [] len a
        ≡ done (record {
          ret = (if len == 0 then none else some len);
          caller = a;
          stream = [];
          errno = unset;
        })
  unfolding read_from
  read_from-end delimiter len a = refl

  pub read_from-Ended :
      (delimiter : ℕ) (read : List ℕ) (len n : ℕ) (m : Mem)
      → All (λ c. (c ≢ delimiter) × (c < 256)) read
      → len + 2 ≤ n
      → n + 12 * suc (length read) < 2 ^ 63
      → (o : Outcome) × (read_from alloc garbage delimiter read len (block m n) ≡ done o)
        × Ended m len read o
  read_from-Ended delimiter [] len n m h fits small = (
    _,
    read_from-end delimiter len (block m n),
    record {
      mem = m;
      size = n;
      returns = ap (ended_at m n) (omega arith);
      content = ap (bytes m 0) (omega arith) ∙ sym (append-nil (bytes m 0 len));
      behind = refl;
    },
  )
  read_from-Ended delimiter (c ∷ read) len n m h fits small =
      let (o, runs, t) =
        read_from-Ended delimiter read (len + 1) (grown len n) (store m len c) h.1 (ground arith)
          (ground arith) in
      let shift : len + 1 + length read ≡ len + suc (length read) = omega arith in
      let kept : store m len c (len + 1 + length read) ≡ m (len + suc (length read)) =
        ground (arith, ap m shift) in
      (
        o,
        read_step delimiter c read len n m h.0.1 fits (omega arith) ∙ ground (arith, h.0.0) ∙ runs,
        record {
          mem = t.mem;
          size = t.size;
          returns = t.returns ∙ ap (ended_at t.mem t.size) shift;
          content =
              ap (bytes t.mem 0) (sym shift)
              ∙ t.content
              ∙ ap (λ k. bytes (store m len c) 0 k ++ read) (add-suc len)
              ∙ ap (λ xs. xs ++ read) (bytes-end m len c)
              ∙ append_assoc (bytes m 0 len) (c ∷ []) read;
          behind = ap t.mem (sym shift) ∙ t.behind ∙ kept;
        },
      )
