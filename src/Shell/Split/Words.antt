-- ===== src/Shell/Split/Words.antt =====
-- What the splitting leaves: every blank behind the command's first byte is a NUL, and the
-- arguments start exactly where a byte that is no blank follows a blank or starts the line.
use native.Mathlib.Numerals.{add-one}
use ganos.Base.{
  Option-cases, ℕ, zero, suc, ◌+◌, ◌-◌, ◌*◌, ◌^◌, ◌≤◌, ◌<◌, ◌≡◌, ◌≢◌, refl, arith, List, [], ◌∷◌,
  ◌++◌, ◌==◌, ltb, leb, if◌then◌else◌, Bool, true, false, not, ◌&&◌, Bool-cases, inl, inr, Mem,
  store, Option, none, some, length, length-append,
}
use ganos.Base.Run.{done}
use ganos.Shell.Split.{Splitter, is_blank, split_byte, split_from, split}

-- What stands before `k` is a blank, or the start of the line.
abbrev pub behind_blank : Mem → ℕ → Bool
behind_blank m zero = true
behind_blank m (suc k) = is_blank (m k)

-- A word starts at `k`.
abbrev pub starts_at : Mem → ℕ → Bool
starts_at m k = not (is_blank (m k)) && behind_blank m k

-- The starts before `n`, in order.
abbrev pub starts : Mem → ℕ → List ℕ
starts m zero = []
starts m (suc n) = if starts_at m n then starts m n ++ n ∷ [] else starts m n

-- The first start before `n`.
abbrev pub first_start : Mem → ℕ → Option ℕ
first_start m zero = none
first_start m (suc n) = elim (first_start m n) [
  | some c ↦ some c
  | none ↦ if starts_at m n then some n else none
]

-- Behind the first start, blanks are overwritten.
abbrev pub cut : Mem → ℕ → ℕ → ℕ
cut m n k = elim (first_start m n) [
  | none ↦ m k
  | some c ↦ if leb c k && ltb k n && is_blank (m k) then 0 else m k
]

-- The state of the loop before the byte `n`.
record IsSplit (m : Mem) (n : ℕ) (p : Splitter) : Type 0 where
  command : p.command ≡ first_start m n
  arguments : p.args ≡ starts m n
  memory : (k : ℕ) → p.buf k ≡ cut m n k
  room : length p.args < p.args_sz
  three : 3 ≤ p.args_sz
  pending : (first_start m n ≢ none → p.newarg ≡ behind_blank m n)
  nothing : first_start m n ≡ none → (p.args ≡ []) × (p.newarg ≡ false) × (behind_blank m n ≡ true)

first_start-lt : (m : Mem) (n c : ℕ) → first_start m n ≡ some c → c < n
first_start-lt m zero c e = absurd (cc)
first_start-lt m (suc n) c e = ground (arith, first_start-lt m n c)

module _ (alloc : ℕ → Bool) (enough : (n : ℕ) → alloc n ≡ true) (m : Mem) (n : ℕ) (p : Splitter)
    (h : IsSplit m n p) where
  abbrev Steps : Type 0
  Steps = (p' : Splitter) × (split_byte alloc n p ≡ done p') × IsSplit m (suc n) p'

  leading_blank : first_start m n ≡ none → is_blank (m n) ≡ true → Steps
  unfolding split_byte
  leading_blank e b = (
    p,
    ground (arith, h.command, h.memory n),
    record {
      command = ground (arith, h.command);
      arguments = ground (arith, h.arguments);
      memory = λ k. ground (arith, h.memory k);
      room = h.room;
      three = h.three;
      pending = ground arith;
      nothing = λ _. ground (arith, h.nothing e);
    },
  )

  command_start : first_start m n ≡ none → is_blank (m n) ≡ false → Steps
  unfolding split_byte
  command_start e b = (
    record p { command = some n; args = p.args ++ n ∷ [] },
    ground (arith, h.command, h.memory n, h.room),
    record {
      command = ground (arith, h.nothing e);
      arguments = ground (arith, h.arguments, h.nothing e);
      memory = λ k. ground (arith, h.memory k, h.nothing e);
      room = ground (arith, h.nothing e, h.three);
      three = h.three;
      pending = λ _. ground (arith, h.nothing e);
      nothing = λ z. ground (arith, h.nothing e);
    },
  )

  later_blank : (c : ℕ) → first_start m n ≡ some c → is_blank (m n) ≡ true → Steps
  unfolding split_byte
  later_blank c e b = (
    record p { buf = store p.buf n 0; newarg = true },
    ground (arith, h.command, h.memory n),
    record {
      command = ground (arith, h.command);
      arguments = ground (arith, h.arguments);
      memory = λ k. ground (arith, h.memory k, first_start-lt m n c);
      room = h.room;
      three = h.three;
      pending = ground arith;
      nothing = λ z. ground arith;
    },
  )

  -- Room for one more entry beside the null pointer behind the last.
  grown : ℕ
  grown = if length p.args == p.args_sz - 1 then p.args_sz + 3 else p.args_sz

  later_start :
      (c : ℕ) → first_start m n ≡ some c → is_blank (m n) ≡ false → p.newarg ≡ true → Steps
  unfolding split_byte grown
  later_start c e b w = (
    record p { args = p.args ++ n ∷ []; args_sz = grown; newarg = false },
    ground (arith, h.command, h.memory n, h.room, enough (8 * (p.args_sz + 3))),
    record {
      command = ground (arith, h.command);
      arguments = ground (arith, h.arguments, h.pending);
      memory = λ k. ground (arith, h.memory k, first_start-lt m n c);
      room = ground (arith, length-append p.args (n ∷ []), h.room);
      three = ground (arith, h.three);
      pending = λ _. ground arith;
      nothing = λ z. ground arith;
    },
  )

  later_plain :
      (c : ℕ) → first_start m n ≡ some c → is_blank (m n) ≡ false → p.newarg ≡ false → Steps
  unfolding split_byte grown
  later_plain c e b w = (
    record p { args_sz = grown },
    ground (arith, h.command, h.memory n, h.room, enough (8 * (p.args_sz + 3))),
    record {
      command = ground (arith, h.command);
      arguments = ground (arith, h.arguments, h.pending);
      memory = λ k. ground (arith, h.memory k, first_start-lt m n c);
      room = ground (arith, h.room);
      three = ground (arith, h.three);
      pending = λ _. ground arith;
      nothing = λ z. ground arith;
    },
  )

starting :
    (m : Mem)
    → IsSplit m 0 (record { buf = m; command = none; args = []; args_sz = 3; newarg = false })
starting m = record {
  command = refl;
  arguments = refl;
  memory = λ k. refl;
  room = omega arith;
  three = omega arith;
  pending = λ ne. absurd (ne refl);
  nothing = λ _. (refl, refl, refl);
}

module _ (alloc : ℕ → Bool) (enough : (n : ℕ) → alloc n ≡ true) where
  split_byte-IsSplit :
      (m : Mem) (n : ℕ) (p : Splitter)
      → IsSplit m n p
      → (p' : Splitter) × (split_byte alloc n p ≡ done p') × IsSplit m (suc n) p'
  split_byte-IsSplit m n p h = elim (Option-cases (first_start m n)) [
    | inl e ↦ elim (Bool-cases (is_blank (m n))) [
      | inl b ↦ leading_blank alloc enough m n p h e b
      | inr b ↦ command_start alloc enough m n p h e b
    ]
    | inr (c, e) ↦ elim (Bool-cases (is_blank (m n))) [
      | inl b ↦ later_blank alloc enough m n p h c e b
      | inr b ↦ elim (Bool-cases p.newarg) [
        | inl w ↦ later_start alloc enough m n p h c e b w
        | inr w ↦ later_plain alloc enough m n p h c e b w
      ]
    ]
  ]

  split_from-IsSplit :
      (m : Mem) (n i hi : ℕ) (p : Splitter)
      → i + n ≡ hi
      → hi < 2 ^ 31
      → IsSplit m i p
      → (p' : Splitter) × (split_from alloc n i p ≡ done p') × IsSplit m hi p'
  unfolding split_from
  split_from-IsSplit m zero i hi p e small h =
      let e' : i ≡ hi = omega arith in (p, refl, rw (← e') h)
  split_from-IsSplit m (suc n) i hi p e small h =
      let (p', runs, h') = split_byte-IsSplit m i p h in
      let again : IsSplit m (i + 1) p' = rw add-one h' in
      let (p'', rest, h'') = split_from-IsSplit m n (i + 1) hi p' (omega arith) small again in
      let fits : ltb (i + 1) (2 ^ 31) ≡ true = ground arith in (p'', rw (runs, fits, rest), h'')

  -- If every allocation succeeds, the loop of `process` returns for every line of less than 2^31
  -- bytes, the NUL included, without an access outside its array of arguments. The command is the
  -- first word; the arguments are the starts of all words, in order, and a null pointer is behind
  -- them; every blank behind the start of the command is a NUL, all else is kept.
  pub split_lem :
      (m : Mem) (n : ℕ)
      → n < 2 ^ 31
      → (p : Splitter) × (split alloc m n ≡ done p)
        × (p.command ≡ first_start m n)
        × (p.args ≡ starts m n)
        × (length p.args < p.args_sz)
        × ((k : ℕ) → p.buf k ≡ cut m n k)
  unfolding split
  split_lem m n small =
      let (p, runs, h) = split_from-IsSplit m n 0 n _ (omega arith) small (starting m) in
      (p, rw (enough (8 * 3)) runs, h.command, h.arguments, h.room, h.memory)
