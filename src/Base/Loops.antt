-- ===== src/Base/Loops.antt =====
-- The counting loops of C, from one number up to another, with the rule for their invariants.
use Prim.Native.Nat.{ℕ, zero, suc, ◌+◌, ◌<◌}
use mathlib.Core.Path.{◌≡◌, sym}
use native.Mathlib.Omega.{arith}

module _ {ℓ} {State : Type ℓ} (body : ℕ → State → State) where
  -- The state behind the rounds for `first`, `first + 1` and so on, `rounds` of them.
  unfoldable pub count_up : (first rounds : ℕ) → State → State
  count_up first zero state = state
  count_up first (suc rounds) state = count_up (first + 1) rounds (body first state)

  -- If a round below `last` takes the invariant at its number to that at the next one, the loop
  -- takes it from its first number to `last`.
  pub count_up-keeps {κ} :
      (Inv : ℕ → State → Type κ) (last : ℕ)
      → ((k : ℕ) (state : State) → k < last → Inv k state → Inv (k + 1) (body k state))
      → (first rounds : ℕ) (state : State) → Inv first state
      → first + rounds ≡ last
      → Inv last (count_up first rounds state)
  unfolding count_up
  count_up-keeps Inv last round first zero state holds ends =
      let here : first ≡ last = omega arith in rw (sym here) holds
  count_up-keeps Inv last round first (suc rounds) state holds ends =
      count_up-keeps Inv last round (first + 1) rounds (body first state)
        (round first state (omega arith) holds) (omega arith)
