-- ===== src/Shell/Process/Spaced.antt =====
-- Words with single spaces between them reach the command as they are.
use ganos.Base.{
  ◌^◌, ◌<◌, ℕ, suc, ◌≡◌, refl, arith, List, [], ◌∷◌, ◌++◌, Bool, true, false, Mem, length, codes,
  Getopt, All,
}
use ganos.Shell.World.{World, Chdir}
use ganos.Shell.Split.{is_blank}
use ganos.Shell.Process.{Fork, dispatch, process}
use ganos.Shell.Process.Argv.{word, words_from, Line, process-words}

-- A word: no byte of it is a blank or a NUL, and there is one.
abbrev pub IsWord : List ℕ → Type 0
IsWord [] = ⊥
IsWord (c ∷ cs) = (is_blank c ≡ false) × All (λ x. is_blank x ≡ false) cs

unfoldable pub spaced : List ℕ → List (List ℕ) → List ℕ
spaced w [] = w
spaced w (v ∷ ws) = w ++ 32 ∷ spaced v ws

word_lem : (w rest : List ℕ) → All (λ x. is_blank x ≡ false) w → word (w ++ 32 ∷ rest) ≡ w
unfolding word
word_lem [] rest plain = refl
word_lem (c ∷ w) rest plain = ground (arith, plain.0, word_lem w rest plain.1)

word_end : (w : List ℕ) → All (λ x. is_blank x ≡ false) w → word w ≡ w
unfolding word
word_end [] plain = refl
word_end (c ∷ w) plain = ground (arith, plain.0, word_end w plain.1)

words_from-rest :
    (w rest : List ℕ)
    → All (λ x. is_blank x ≡ false) w
    → words_from false (w ++ 32 ∷ rest) ≡ words_from true rest
unfolding words_from
words_from-rest [] rest plain = refl
words_from-rest (c ∷ w) rest plain = ground (arith, plain.0, words_from-rest w rest plain.1)

words_from-end : (w : List ℕ) → All (λ x. is_blank x ≡ false) w → words_from false w ≡ []
unfolding words_from
words_from-end [] plain = refl
words_from-end (c ∷ w) plain = ground (arith, plain.0, words_from-end w plain.1)

words_from-spaced :
    (w : List ℕ) (ws : List (List ℕ))
    → IsWord w
    → All IsWord ws
    → words_from true (spaced w ws) ≡ w ∷ ws
unfolding words_from spaced
words_from-spaced [] ws h hs = absurd h
words_from-spaced (c ∷ w) [] h hs = ground (arith, h.0, words_from-end w h.1, word_end (c ∷ w) h)
words_from-spaced (c ∷ w) (v ∷ ws) h hs = ground (
  arith,
  h.0,
  word_lem (c ∷ w) (spaced v ws) h,
  words_from-rest w (spaced v ws) h.1,
  words_from-spaced v ws hs.0 hs.1,
)

-- If every allocation succeeds, then for a line in memory, shorter than 2^31 - 1 bytes, that is one or more words with single spaces between them, `process` hands
-- the first word to the built-in commands or to the child, with all words as its arguments.
pub process-spaced :
    (getopt : Getopt) (chdir : Chdir) (exec : List ℕ → Bool) (alloc : ℕ → Bool) (fuel : ℕ)
    (fork : Fork) (m : Mem) (w : List ℕ) (ws : List (List ℕ)) (world : World)
    → IsWord w
    → All IsWord ws
    → ((n : ℕ) → alloc n ≡ true)
    → suc (length (spaced w ws)) < 2 ^ 31
    → Line m 0 (spaced w ws)
    → process getopt chdir exec alloc fuel fork m (suc (length (spaced w ws))) world
      ≡ dispatch getopt chdir exec fuel fork w
          (w ∷ ws)
          (record world { errors = world.errors ++ codes "reached process(char *, size_t)" ∷ [] })
process-spaced getopt chdir exec alloc fuel fork m w ws world h hs enough small line =
    rw (words_from-spaced w ws h hs) at
      (process-words getopt chdir exec alloc fuel fork m (spaced w ws) world enough small line)
