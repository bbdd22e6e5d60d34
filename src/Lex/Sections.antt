-- ===== src/Lex/Sections.antt =====
-- What `parse` does with the sections of a lex file.
use ganos.Base.{
  ℕ, ◌⊎◌, inl, inr, if◌then◌else◌, suc, ◌+◌, ◌≤◌, ◌<◌, ◌≡◌, ◌≢◌, refl, sym, ap, ◌∙◌, arith, List,
  [], ◌∷◌, ◌++◌, append_assoc, append-nil, Bool, true, false, length, All, ◌==◌, codes,
}
use ganos.Base.Run.{done, ◌>>=◌}
use ganos.Lex.{
  State, Output, unset, stdout, lex_yy_c, log, parse_definitions, parse_rules, parse_subroutines,
  parsesec, is_separator, parse_line, parse,
}

abbrev pub concat : List (List ℕ) → List ℕ
concat [] = []
concat (xs ∷ xss) = xs ++ concat xss

-- `n` lines later, in `section`, with `text` written.
pub record Parsed (s : State) (section : ℕ) (text : List ℕ) (n : ℕ) (s' : State) : Type 0 where
  pub section_is : s'.section ≡ section
  pub out_is : s'.out ≡ s.out ++ text
  pub outf_is : s'.outf ≡ s.outf
  pub line_is : s'.line ≡ s.line + n

Parsed-trans :
    {s s' s'' : State} {k k' n : ℕ} {text text' : List ℕ}
    → Parsed s k text 1 s'
    → Parsed s' k' text' n s''
    → Parsed s k' (text ++ text') (suc n) s''
Parsed-trans {s = s} {text = text} {text' = text'} p q = record {
  section_is = q.section_is;
  out_is = q.out_is ∙ ap (λ xs. xs ++ text') p.out_is ∙ append_assoc s.out text text';
  outf_is = q.outf_is ∙ p.outf_is;
  line_is = omega (arith, q.line_is, p.line_is);
}

pub opened_cases : (o : Output) → o ≢ unset → (o ≡ stdout) ⊎ (o ≡ lex_yy_c)
opened_cases unset h = absurd (h refl)
opened_cases stdout h = inl refl
opened_cases lex_yy_c h = inr refl

module _ (isspace : ℕ → Bool) where
  -- `parse` returns, `section` and `text` being what it leaves and writes.
  abbrev Parses : List (List ℕ) → State → ℕ → List ℕ → Type 0
  Parses buffers s section text =
      (s' : State) × (parse isspace buffers s ≡ done s') × Parsed s section text (length buffers) s'

  pub step-separator :
      (b : List ℕ) (s : State)
      → is_separator isspace b ≡ true
      → s.section ≤ 2
      → (s' : State) × (parse_line isspace b s ≡ done s') × Parsed s (s.section + 1) [] 1 s'
  unfolding parse_line log
  step-separator b s separator small = (
    record (log b (record s { line = s.line + 1 })) { section = s.section + 1 },
    ground (arith, separator),
    record { section_is = refl; out_is = sym (append-nil s.out); outf_is = refl; line_is = refl },
  )

  -- One line of a section that writes nothing, and one of the third section.
  pub step-plain :
      (b : List ℕ) (s : State)
      → is_separator isspace b ≡ false
      → s.section < 2
      → (s' : State) × (parse_line isspace b s ≡ done s') × Parsed s s.section [] 1 s'
  unfolding parse_line parsesec parse_definitions parse_rules log
  step-plain b s plain small =
      let name = if s.section == 0 then codes "parse_definitions" else codes "parse_rules" in
      (
        log name (log b (record s { line = s.line + 1 })),
        ground (arith, plain),
        record {
          section_is = refl;
          out_is = sym (append-nil s.out);
          outf_is = refl;
          line_is = refl;
        },
      )

  writes :
      (b : List ℕ) (s : State)
      → s.outf ≢ unset
      → parse_subroutines b s
        ≡ done (record (log (codes "parse_subroutines") s) { out = s.out ++ b })
  unfolding parse_subroutines log
  writes b s opened = elim (opened_cases s.outf opened) [
    | inl h ↦ ground (arith, h)
    | inr h ↦ ground (arith, h)
  ]

  pub step-subroutine :
      (b : List ℕ) (s : State)
      → is_separator isspace b ≡ false
      → s.section ≡ 2
      → s.outf ≢ unset
      → (s' : State) × (parse_line isspace b s ≡ done s') × Parsed s 2 b 1 s'
  unfolding parse_line parsesec log
  step-subroutine b s plain third opened =
      let s₁ = log b (record s { line = s.line + 1 }) in
      (
        record (log (codes "parse_subroutines") s₁) { out = s.out ++ b },
        ground (arith, plain, third, writes b s₁ opened),
        record { section_is = third; out_is = refl; outf_is = refl; line_is = refl },
      )

  Parses-cons :
      (b : List ℕ) (bs : List (List ℕ)) {s : State} {k : ℕ} (k' : ℕ) {text : List ℕ}
      (text' : List ℕ)
      → ((s' : State) × (parse_line isspace b s ≡ done s') × Parsed s k text 1 s')
      → ((s' : State) → Parsed s k text 1 s' → Parses bs s' k' text')
      → Parses (b ∷ bs) s k' (text ++ text')
  unfolding parse
  Parses-cons b bs k' text' (s', runs, p) rest =
      let (s'', runs', q) : Parses bs s' k' text' = rest s' p in
      (s'', ap (λ r. r >>= λ s'. parse isspace bs s') runs ∙ runs', Parsed-trans p q)

  Parses-nil : (s : State) (k : ℕ) → s.section ≡ k → Parses [] s k []
  unfolding parse
  Parses-nil s k h = (
    s,
    refl,
    record {
      section_is = h;
      out_is = sym (append-nil s.out);
      outf_is = refl;
      line_is = omega arith;
    },
  )

  Parses-subroutines :
      (subs : List (List ℕ)) (s : State)
      → All (λ b. is_separator isspace b ≡ false) subs
      → s.section ≡ 2
      → s.outf ≢ unset
      → Parses subs s 2 (concat subs)
  Parses-subroutines [] s plain third opened = Parses-nil s 2 third
  Parses-subroutines (b ∷ subs) s plain third opened =
      Parses-cons b subs 2 (concat subs) (step-subroutine b s plain.0 third opened)
        (λ s' p. Parses-subroutines subs s' plain.1 p.section_is (λ e. opened (sym p.outf_is ∙ e)))

  -- Plain lines and a separator before `rest`.
  Parses-section :
      (xs : List (List ℕ)) (separator : List ℕ) (rest : List (List ℕ)) (s : State) (k' : ℕ)
      (text : List ℕ)
      → All (λ b. is_separator isspace b ≡ false) xs
      → is_separator isspace separator ≡ true
      → s.section < 2
      → ((s' : State) → s'.section ≡ s.section + 1 → s'.outf ≡ s.outf → Parses rest s' k' text)
      → Parses (xs ++ separator ∷ rest) s k' text
  Parses-section [] separator rest s k' text plain here small next =
      Parses-cons separator rest k' text (step-separator separator s here (omega arith))
        (λ s' p. next s' p.section_is p.outf_is)
  Parses-section (b ∷ xs) separator rest s k' text plain here small next =
      Parses-cons b (xs ++ separator ∷ rest) k' text (step-plain b s plain.0 small) (λ s' p.
        Parses-section xs separator rest s' k' text plain.1 here (omega (arith, p.section_is))
          (λ s'' h h'. next s'' (h ∙ ap (λ n. n + 1) p.section_is) (h' ∙ p.outf_is)))

  -- From the start of the definitions and with an output that is open, `parse` returns for three
  -- groups of lines of which none is a separator, with separators between them, however long they
  -- are: it writes exactly the lines of the third group, in order, and counts every line.
  pub parse_sections :
      (definitions rules subs : List (List ℕ)) (first second : List ℕ) (s : State)
      → All (λ b. is_separator isspace b ≡ false) definitions
      → All (λ b. is_separator isspace b ≡ false) rules
      → All (λ b. is_separator isspace b ≡ false) subs
      → is_separator isspace first ≡ true
      → is_separator isspace second ≡ true
      → s.section ≡ 0
      → s.outf ≢ unset
      → (s' : State) × (parse isspace (definitions ++ first ∷ (rules ++ second ∷ subs)) s ≡ done s')
        × Parsed s 2 (concat subs) (length (definitions ++ first ∷ (rules ++ second ∷ subs))) s'
  parse_sections definitions rules subs first second s pd pr ps h1 h2 fresh opened =
      Parses-section definitions first (rules ++ second ∷ subs) s 2 (concat subs) pd h1
        (omega arith)
        (λ s' k o.
          Parses-section rules second subs s' 2 (concat subs) pr h2 (omega (arith, k)) (λ s'' k' o'.
            Parses-subroutines subs s'' ps (omega (arith, k, k')) (λ e. opened (sym (o' ∙ o) ∙ e))))
