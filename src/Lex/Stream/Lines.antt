-- ===== src/Lex/Stream/Lines.antt =====
-- `parse` on the bytes of a stream against `parse` on its lines.
use ganos.Base.{
  sym, ℕ, zero, suc, ◌+◌, ◌*◌, ◌^◌, ◌≤◌, ◌<◌, ◌≡◌, ◌≢◌, refl, ap, ◌∙◌, arith, List, [], ◌∷◌, ◌++◌,
  ◌==◌, if◌then◌else◌, All, length, length-append, Mem, Bool, Bool-cases, inl, inr, true, false,
  none,
}
use ganos.Base.Run.{done, ◌>>=◌, >>=-cong}
use ganos.Getdelim.{Caller, Outcome}
use ganos.Getdelim.Line.{IsUsable, has_block}
use ganos.Getdelim.Reads.{block}
use ganos.Stdio.{Fgets, IsFgets, text_of}
use ganos.Stdio.Text.{IsPlain}
use ganos.Lex.{State, parse_line, parse}
use ganos.Lex.Getline.{getline, finished}
use ganos.Lex.Getline.Lines.{Lined}
use ganos.Lex.Getline.Same.{getline-Lined, getline-nothing}
use ganos.Lex.Getline.Last.{getline-Last}
use ganos.Lex.Stream.{line_of, parse_stream}

-- The lines of a stream with their line feeds; the last may have none.
unfoldable pub split_lines : List ℕ → List (List ℕ)
split_lines [] = []
split_lines (c ∷ cs) =
    let rest = split_lines cs in
    if c == 10
    then (c ∷ []) ∷ rest
    else elim rest [ [] ↦ (c ∷ []) ∷ [] | line ∷ lines ↦ (c ∷ line) ∷ lines ]

pub split_lines-line :
    (pre rest : List ℕ)
    → All IsPlain pre
    → split_lines (pre ++ 10 ∷ rest) ≡ (pre ++ 10 ∷ []) ∷ split_lines rest
unfolding split_lines
split_lines-line [] rest plain = refl
split_lines-line (c ∷ pre) rest plain = ground (arith, plain.0.0, split_lines-line pre rest plain.1)

split_lines-last :
    (c : ℕ) (cs : List ℕ) → All IsPlain (c ∷ cs) → split_lines (c ∷ cs) ≡ (c ∷ cs) ∷ []
unfolding split_lines
split_lines-last c [] plain = ground (arith, plain.0.0)
split_lines-last c (c' ∷ cs) plain = ground (arith, plain.0.0, split_lines-last c' cs plain.1)

-- A byte of a text.
abbrev pub IsByte : ℕ → Type 0
IsByte c = (c ≢ 0) × (c < 256)

-- How a stream without NULs goes on.
data Next : List ℕ → Type 0 where
  nothing : Next []
  a_line : (pre rest : List ℕ) → All IsPlain pre → All IsByte rest → Next (pre ++ 10 ∷ rest)
  the_rest : (c : ℕ) (cs : List ℕ) → All IsPlain (c ∷ cs) → Next (c ∷ cs)

Next-cons : (c : ℕ) (stream : List ℕ) → IsPlain c → Next stream → Next (c ∷ stream)
Next-cons c _ plain nothing = the_rest c [] (plain, record {})
Next-cons c _ plain (a_line pre rest plain' bytes) = a_line (c ∷ pre) rest (plain, plain') bytes
Next-cons c _ plain (the_rest c' cs plain') = the_rest c (c' ∷ cs) (plain, plain')

next : (stream : List ℕ) → All IsByte stream → Next stream
next [] bytes = nothing
next (c ∷ cs) bytes = elim (Bool-cases (c == 10)) [
  | inl feed ↦ let e : c ≡ 10 = ground (arith, feed) in rw e (a_line [] cs (record {}) bytes.1)
  | inr other ↦ Next-cons c cs (ground (arith, other), bytes.0.0, bytes.0.1) (next cs bytes.1)
]

module _ (isspace : ℕ → Bool) (fgets : Fgets) (alloc : ℕ → Bool) (garbage : Mem) (calls : ℕ)
    (is : IsFgets fgets) (enough : (k : ℕ) → alloc k ≡ true) where
  -- A line that `getline` reads is parsed, and the loop goes on with its block.
  parse_stream-line :
      (fuel limit : ℕ) (line stream rest : List ℕ) (a : Caller) (s : State) (o : Outcome)
      → getline fgets alloc calls false stream a ≡ done o
      → Lined limit line rest o
      → (m : Mem) × (n : ℕ) × (2 ≤ n)
        × (n ≤ limit)
        × (parse_stream isspace fgets alloc (suc fuel) calls stream a s ≡ (
            parse_line isspace line s >>= λ s'.
            parse_stream isspace fgets alloc fuel calls rest (block m n) s'))
  unfolding parse_stream line_of finished text_of
  parse_stream-line fuel limit line stream rest a s o runs lined = (
    lined.mem,
    lined.size,
    lined.room,
    lined.grown,
    ground (arith, runs, lined.returns, lined.content),
  )

  parse_stream-nothing :
      (fuel : ℕ) (a : Caller) (s : State) (o : Outcome)
      → getline fgets alloc calls false [] a ≡ done o
      → o.ret ≡ none
      → parse_stream isspace fgets alloc (suc fuel) calls [] a s ≡ done s
  unfolding parse_stream
  parse_stream-nothing fuel a s o runs ended = ground (arith, runs, ended)

  -- The loop on a stream whose first line is known, when it is right on the rest.
  parse_stream-cons :
      (fuel limit : ℕ) (line stream rest : List ℕ) (a : Caller) (s : State)
      → (o : Outcome) × (getline fgets alloc calls false stream a ≡ done o)
        × Lined limit line rest o
      → split_lines stream ≡ line ∷ split_lines rest
      → ((m : Mem) (n : ℕ) (s' : State)
          → 2 ≤ n
          → n ≤ limit
          → parse_stream isspace fgets alloc fuel calls rest (block m n) s'
            ≡ parse isspace (split_lines rest) s')
      → parse_stream isspace fgets alloc (suc fuel) calls stream a s
        ≡ parse isspace (split_lines stream) s
  unfolding parse
  parse_stream-cons fuel limit line stream rest a s (o, runs, lined) splits later =
      let (m, n, room, grown, first) =
        parse_stream-line fuel limit line stream rest a s o runs lined in
      first
      ∙ >>=-cong (parse_line isspace line s) (λ s'. later m n s' room grown)
      ∙ ap (λ lines. parse isspace lines s) (sym splits)

  -- One call of `getline` and the parsing of its line, when the loop is right on shorter streams.
  parse_stream-next :
      (fuel : ℕ) (stream : List ℕ) (a : Caller) (m : Mem) (n : ℕ) (s : State)
      → Next stream
      → IsUsable garbage a m n
      → length stream < calls
      → n + 12 * suc (length stream) < 2 ^ 31
      → ((rest : List ℕ) (m' : Mem) (n' : ℕ) (s' : State)
          → 2 ≤ n'
          → All IsByte rest
          → length rest < length stream
          → n' + 12 * suc (length rest) < 2 ^ 31
          → parse_stream isspace fgets alloc fuel calls rest (block m' n') s'
            ≡ parse isspace (split_lines rest) s')
      → parse_stream isspace fgets alloc (suc fuel) calls stream a s
        ≡ parse isspace (split_lines stream) s
  unfolding parse split_lines
  parse_stream-next fuel _ a m n s nothing usable called small later =
      let (o, runs, ended) =
        getline-nothing fgets alloc calls n garbage m a is enough usable (omega (arith, small)) in
      parse_stream-nothing fuel a s o runs ended
  parse_stream-next fuel _ a m n s (a_line pre rest plain bytes) usable called small later =
      let k = length-append pre (10 ∷ rest) in
      parse_stream-cons fuel (n + 12 * length pre) (pre ++ 10 ∷ []) (pre ++ 10 ∷ rest) rest a s
        (getline-Lined fgets alloc garbage is enough calls pre rest a m n usable plain
          (omega (arith, k, called)) (omega (arith, k, small)))
        (split_lines-line pre rest plain)
        (λ m' n' s' room grown.
          later rest m' n' s' room bytes (omega (arith, k)) (omega (arith, k, small, grown)))
  parse_stream-next fuel _ a m n s (the_rest c cs plain) usable called small later =
      parse_stream-cons fuel (n + 12 * length (c ∷ cs)) (c ∷ cs) (c ∷ cs) [] a s
        (getline-Last fgets alloc garbage calls c cs a m n is enough usable plain called small)
        (split_lines-last c cs plain)
        (λ m' n' s' room grown.
          later [] m' n' s' room (record {}) (omega arith) (omega (arith, small, grown)))

  -- If `fgets` does what its documentation promises and every allocation succeeds, `parse` on a
  -- stream of bytes without NULs does what it does on the list of the stream's lines, of which the
  -- last may have no line feed, undefined behaviour included. The first call of `getline` may bring
  -- a block or not; its size and 12 bytes for each byte of the stream and one more stay below 2^31.
  -- More calls of `getline`, and of `fgets` in each, than there are bytes are enough.
  pub parse_stream-split_lines :
      (fuel : ℕ) (stream : List ℕ) (a : Caller) (m : Mem) (n : ℕ) (s : State)
      → IsUsable garbage a m n
      → All IsByte stream
      → length stream < fuel
      → length stream < calls
      → n + 12 * suc (length stream) < 2 ^ 31
      → parse_stream isspace fgets alloc fuel calls stream a s
        ≡ parse isspace (split_lines stream) s
  parse_stream-split_lines zero stream a m n s usable bytes fuelled called small =
      absurd (omega (arith, fuelled))
  parse_stream-split_lines (suc fuel) stream a m n s usable bytes fuelled called small =
      parse_stream-next fuel stream a m n s (next stream bytes) usable called small
        (λ rest m' n' s' room bytes' shorter small'.
          parse_stream-split_lines fuel rest (block m' n') m' n' s' (has_block m' n' room) bytes'
            (omega (arith, shorter, fuelled)) (omega (arith, shorter, called)) small')
