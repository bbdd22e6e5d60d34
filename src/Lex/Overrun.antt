-- ===== src/Lex/Overrun.antt =====
-- Where lex leaves the defined behaviour of C: the array of the parsers.
use ganos.Base.{
  ℕ, ◌+◌, ◌<◌, ◌≡◌, ◌≢◌, sym, ap, ◌∙◌, arith, List, [], ◌∷◌, ◌++◌, Bool, true, false, All,
}
use ganos.Base.Run.{done, undefined, ◌>>=◌}
use ganos.Lex.{State, unset, parsesec, is_separator, parse_line, parse}
use ganos.Lex.Sections.{Parsed, step-separator, step-plain, step-subroutine}

module _ (isspace : ℕ → Bool) where
  abbrev Fails : List (List ℕ) → State → Type 0
  Fails buffers s = parse isspace buffers s ≡ undefined

  -- What `parse_line` does first, then the rest.
  Fails-cons :
      (b : List ℕ) (bs : List (List ℕ)) {s : State} {k : ℕ} {text : List ℕ}
      → ((s' : State) × (parse_line isspace b s ≡ done s') × Parsed s k text 1 s')
      → ((s' : State) → Parsed s k text 1 s' → Fails bs s')
      → Fails (b ∷ bs) s
  unfolding parse
  Fails-cons b bs (s', runs, p) next = ap (λ r. r >>= λ s'. parse isspace bs s') runs ∙ next s' p

  Fails-end : (b : List ℕ) (bs : List (List ℕ)) (s : State) → s.section ≡ 3 → Fails (b ∷ bs) s
  unfolding parse parse_line parsesec
  Fails-end b bs s h = ground (arith, h)

  Fails-subroutines :
      (subs : List (List ℕ)) (third after : List ℕ) (rest : List (List ℕ)) (s : State)
      → All (λ b. is_separator isspace b ≡ false) subs
      → is_separator isspace third ≡ true
      → s.section ≡ 2
      → s.outf ≢ unset
      → Fails (subs ++ third ∷ after ∷ rest) s
  Fails-subroutines [] third after rest s plain h here opened =
      Fails-cons third (after ∷ rest) (step-separator isspace third s h (omega arith))
        (λ s' p. Fails-end after rest s' (omega (arith, p.section_is)))
  Fails-subroutines (b ∷ subs) third after rest s plain h here opened =
      Fails-cons b (subs ++ third ∷ after ∷ rest) (step-subroutine isspace b s plain.0 here opened)
        (λ s' p.
          Fails-subroutines subs third after rest s' plain.1 h p.section_is
            (λ e. opened (sym p.outf_is ∙ e)))

  Fails-section :
      (xs : List (List ℕ)) (separator : List ℕ) (rest : List (List ℕ)) (s : State)
      → All (λ b. is_separator isspace b ≡ false) xs
      → is_separator isspace separator ≡ true
      → s.section < 2
      → ((s' : State) → s'.section ≡ s.section + 1 → s'.outf ≡ s.outf → Fails rest s')
      → Fails (xs ++ separator ∷ rest) s
  Fails-section [] separator rest s plain here small next =
      Fails-cons separator rest (step-separator isspace separator s here (omega arith))
        (λ s' p. next s' p.section_is p.outf_is)
  Fails-section (b ∷ xs) separator rest s plain here small next =
      Fails-cons b (xs ++ separator ∷ rest) (step-plain isspace b s plain.0 small) (λ s' p.
        Fails-section xs separator rest s' plain.1 here (omega (arith, p.section_is))
          (λ s'' h h'. next s'' (h ∙ ap (λ n. n + 1) p.section_is) (h' ∙ p.outf_is)))

  -- With an output that is open, a third separator lets the next line, whatever it is, be parsed
  -- with an element behind the end of `parsesec`.
  pub parse-fourth :
      (definitions rules subs : List (List ℕ)) (first second third after : List ℕ)
      (rest : List (List ℕ)) (s : State)
      → All (λ b. is_separator isspace b ≡ false) definitions
      → All (λ b. is_separator isspace b ≡ false) rules
      → All (λ b. is_separator isspace b ≡ false) subs
      → is_separator isspace first ≡ true
      → is_separator isspace second ≡ true
      → is_separator isspace third ≡ true
      → s.section ≡ 0
      → s.outf ≢ unset
      → parse isspace (definitions ++ first ∷ (rules ++ second ∷ (subs ++ third ∷ after ∷ rest))) s
        ≡ undefined
  parse-fourth definitions rules subs first second third after rest s pd pr ps h1 h2 h3 fresh
        opened =
      Fails-section definitions first (rules ++ second ∷ (subs ++ third ∷ after ∷ rest)) s pd h1
        (omega arith)
        (λ s' k o.
          Fails-section rules second (subs ++ third ∷ after ∷ rest) s' pr h2 (omega (arith, k))
            (λ s'' k' o'.
              Fails-subroutines subs third after rest s'' ps h3 (omega (arith, k, k'))
                (λ e. opened (sym (o' ∙ o) ∙ e))))
