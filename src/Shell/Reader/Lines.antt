-- ===== src/Shell/Reader/Lines.antt =====
-- The reader against a description on lists: which lines it hands to `process`, and in what order.
use ganos.Base.{
  inr, ==_iff, inl, Bool-cases, ap₂, ℕ, suc, ◌+◌, ◌*◌, ◌^◌, ◌≤◌, ◌<◌, ◌≡◌, ◌≢◌, refl, ◌∙◌, arith,
  List, [], ◌∷◌, ◌++◌, append_assoc, append-nil, ◌==◌, if◌then◌else◌, Bool, true, false, Mem, store,
  bytes, bytes-suc, bytes-store, u64, length,
}
use ganos.Base.Run.{done}
use ganos.Shell.Reader.{
  Event, prompt1, prompt2, command, Reader, put_byte, grow, round, read_loop, main,
}

-- What shall happen for the rest of the input, after `line` was read of the current line.
unfoldable pub unescaped : Bool → List ℕ → List ℕ → List Event
unescaped escape line [] = []
unescaped true line (c ∷ input) =
    let continued = unescaped false line input in
    let taken = unescaped false (line ++ c ∷ []) input in
    if c == 10 then prompt2 ∷ continued else taken
unescaped false line (c ∷ input) =
    let next = unescaped false [] input in
    let escaped = unescaped true line input in
    let taken = unescaped false (line ++ c ∷ []) input in
    if c == 10 then command line ∷ prompt1 ∷ next else if c == 92 then escaped else taken

-- The next byte has room, and the buffer can grow for `n` more bytes without overflow.
pub record HasRoom (n : ℕ) (r : Reader) : Type 0 where
  pub room : r.i < r.buf_sz
  pub small : r.buf_sz + 50 * n < 2 ^ 64

-- One round on the byte `c` takes `r` to `next`, up to the growth of the buffer, and does `es`.
pub record RoundTo (alloc : ℕ → Bool) (c : ℕ) (r next : Reader) (es : List Event) : Type 0 where
  pub runs : round alloc c r ≡ grow alloc next
  pub inside : next.i ≤ next.buf_sz
  pub same_size : next.buf_sz ≡ r.buf_sz
  pub emits : next.out ≡ r.out ++ es
  pub described :
      (input : List ℕ)
      → unescaped r.escape (bytes r.buf 0 r.i) (c ∷ input)
        ≡ es ++ unescaped next.escape (bytes next.buf 0 next.i) input

pub line_kept : (m : Mem) (n v : ℕ) → bytes (store m n v) 0 n ≡ bytes m 0 n
line_kept m n v = bytes-store m n 0 n v (omega arith)

pub bytes-store_end : (m : Mem) (n c : ℕ) → bytes (store m n c) 0 (suc n) ≡ bytes m 0 n ++ c ∷ []
bytes-store_end m n c =
    bytes-suc (store m n c) n 0
    ∙ ap₂ (λ (xs : List ℕ) (x : ℕ). xs ++ x ∷ []) (bytes-store m n 0 n c (omega arith))
        (ground arith)

module _ (alloc : ℕ → Bool) where
  -- A byte that becomes part of the line.
  pub round-taken :
      (c : ℕ) (r : Reader)
      → r.i < r.buf_sz
      → r.buf_sz < 2 ^ 64
      → c ≢ 10
      → (r.escape ≡ false → c ≢ 92)
      → RoundTo alloc c r (record r { buf = store r.buf r.i c; i = suc r.i; escape = false }) []
  unfolding round put_byte unescaped
  round-taken c r h b nl bs = record {
    runs = ground (arith, bs);
    inside = h;
    same_size = refl;
    emits = rw append-nil;
    described = λ input. rw bytes-store_end (ground arith);
  }

  -- The backslash that starts an escape.
  pub round-backslash :
      (r : Reader)
      → r.i < r.buf_sz
      → r.buf_sz < 2 ^ 64
      → r.escape ≡ false
      → RoundTo alloc 92 r (record r { buf = store (store r.buf r.i 92) r.i 0; escape = true }) []
  unfolding round put_byte unescaped
  round-backslash r h b e = record {
    runs = ground arith;
    inside = omega arith;
    same_size = refl;
    emits = rw append-nil;
    described = λ input. rw (line_kept, line_kept) (ground arith);
  }

  -- An escaped line feed: the line goes on behind the second prompt.
  round-continued :
      (r : Reader)
      → r.i < r.buf_sz
      → r.buf_sz < 2 ^ 64
      → r.escape ≡ true
      → RoundTo alloc 10 r
          (record r {
            buf = store (store r.buf r.i 10) r.i 0;
            escape = false;
            out = r.out ++ prompt2 ∷ [];
          })
          (prompt2 ∷ [])
  unfolding round put_byte unescaped
  round-continued r h b e = record {
    runs = ground arith;
    inside = omega arith;
    same_size = refl;
    emits = refl;
    described = λ input. rw (line_kept, line_kept) (ground arith);
  }

  -- The line feed that ends the line.
  pub round-ended :
      (r : Reader)
      → r.i < r.buf_sz
      → r.buf_sz < 2 ^ 64
      → r.escape ≡ false
      → RoundTo alloc 10 r
          (record r {
            buf = store (store r.buf r.i 10) r.i 0;
            i = 0;
            out = r.out ++ command (bytes r.buf 0 r.i) ∷ prompt1 ∷ [];
          })
          (command (bytes r.buf 0 r.i) ∷ prompt1 ∷ [])
  unfolding round put_byte unescaped
  round-ended r h b e = record {
    runs = rw (← line_kept r.buf r.i 10) (ground arith);
    inside = omega arith;
    same_size = refl;
    emits = refl;
    described = λ input. ground arith;
  }

  round-steps :
      (c : ℕ) (r : Reader)
      → r.i < r.buf_sz
      → r.buf_sz < 2 ^ 64
      → (next : Reader) × (es : List Event) × RoundTo alloc c r next es
  round-steps c r h b = elim (Bool-cases r.escape) [
    | inl e ↦ elim (Bool-cases (c == 10)) [
      | inl nl ↦ rw ((==_iff c 10).0 nl) (_, _, round-continued r h b e)
      | inr nl ↦ (_, _, round-taken c r h b (ground arith) (λ f. cc))
    ]
    | inr e ↦ elim (Bool-cases (c == 10)) [
      | inl nl ↦ rw ((==_iff c 10).0 nl) (_, _, round-ended r h b e)
      | inr nl ↦ elim (Bool-cases (c == 92)) [
        | inl bs ↦ rw ((==_iff c 92).0 bs) (_, _, round-backslash r h b e)
        | inr bs ↦ (_, _, round-taken c r h b (ground arith) (λ _. ground arith))
      ]
    ]
  ]

module _ (alloc : ℕ → Bool) (enough : (n : ℕ) → alloc n ≡ true) where
  pub grow-HasRoom :
      (n : ℕ) (r : Reader)
      → r.i ≤ r.buf_sz
      → r.buf_sz + 50 * suc n < 2 ^ 64
      → let r' = record r { buf_sz = (if r.i == r.buf_sz then r.buf_sz + 50 else r.buf_sz) } in
        (grow alloc r ≡ done r') × HasRoom n r'
  unfolding grow
  grow-HasRoom n r le small = (
    ground (arith, enough (u64 (r.buf_sz + 50))),
    record { room = ground arith; small = ground arith },
  )

  -- The rest of the input runs from `r` without a fault, and does what the description says.
  Reads : List ℕ → Reader → Type 0
  Reads input r =
      (r' : Reader) × (read_loop alloc input r ≡ done r')
      × (r'.out ≡ r.out ++ unescaped r.escape (bytes r.buf 0 r.i) input)

  Reads-step :
      (c : ℕ) (input : List ℕ) (r next : Reader) (es : List Event)
      → HasRoom (suc (length input)) r
      → RoundTo alloc c r next es
      → ((t : Reader) → HasRoom (length input) t → Reads input t)
      → Reads (c ∷ input) r
  unfolding Reads read_loop
  Reads-step c input r next es h to rest =
      let (g, room) =
        grow-HasRoom (length input) next to.inside (omega (arith, h.small, to.same_size)) in
      let t : Reader = record next {
        buf_sz = (if next.i == next.buf_sz then next.buf_sz + 50 else next.buf_sz);
      } in
      let (r', runs, out) = rest t room in
      (r', rw (to.runs, g) runs, out ∙ rw (to.emits, to.described input) (append_assoc r.out es _))

  reads : (input : List ℕ) (r : Reader) → HasRoom (length input) r → Reads input r
  reads [] r h = unfold Reads read_loop unescaped in (r, refl, rw append-nil)
  reads (c ∷ input) r h =
      let (next, es, to) = round-steps alloc c r h.room (omega (arith, h.small)) in
      Reads-step c input r next es h to (reads input)

  -- If memory can be had, the loop reads any input without an access outside its buffer, and
  -- prompts and processes lines as described: a backslash makes the next byte part of the line,
  -- and an escaped line feed joins two lines behind the second prompt.
  pub main_lem :
      (input : List ℕ)
      → length input < 2 ^ 32
      → main alloc input ≡ done (prompt1 ∷ unescaped false [] input)
  unfolding main Reads
  main_lem input h =
      let r : Reader = record {
        buf = λ _. 0;
        i = 0;
        buf_sz = 50;
        escape = false;
        out = prompt1 ∷ [];
      } in
      let (_, runs, out) = reads input r (record { room = omega arith; small = omega arith }) in
      rw (enough 50, runs, out)
