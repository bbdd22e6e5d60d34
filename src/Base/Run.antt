-- ===== src/Base/Run.antt =====
-- The outcome of a run of C code: it returns, its behaviour is undefined (an access out of bounds,
-- a null dereference, signed overflow), or the fuel given to the model is used up.
use mathlib.Core.Path.{◌≡◌, refl, ap, ◌∙◌}
use mathlib.Core.Option.{Option, none, some}

pub data Run {ℓ} (A : Type ℓ) : Type ℓ where
  undefined out_of_fuel : Run A
  done : A → Run A

infixl 5 ◌>>=◌
abbrev pub ◌>>=◌ {ℓ κ} : {A : Type ℓ} {B : Type κ} → Run A → (A → Run B) → Run B
undefined >>= next = undefined
out_of_fuel >>= next = out_of_fuel
done value >>= next = next value

-- The value of an access that may be out of bounds.
abbrev pub in_bounds {ℓ} : {A : Type ℓ} → Option A → Run A
in_bounds none = undefined
in_bounds (some a) = done a

pub >>=-eq-done {ℓ κ} :
    {A : Type ℓ} {B : Type κ} (m : Run A) (f : A → Run B) {b : B}
    → (m >>= f) ≡ done b
    → (a : A) × (m ≡ done a) × (f a ≡ done b)
>>=-eq-done (done a) f h = (a, refl, h)
>>=-eq-done undefined f h = cc
>>=-eq-done out_of_fuel f h = cc

pub >>=-cong {ℓ κ} :
    {A : Type ℓ} {B : Type κ} (m : Run A) {f g : A → Run B}
    → ((a : A) → f a ≡ g a)
    → (m >>= f) ≡ (m >>= g)
>>=-cong (done a) h = h a
>>=-cong undefined h = refl
>>=-cong out_of_fuel h = refl

pub >>=-done {ℓ κ} :
    {A : Type ℓ} {B : Type κ} (m : Run A) (f : A → Run B) {a : A} {r : Run B}
    → m ≡ done a
    → f a ≡ r
    → (m >>= f) ≡ r
>>=-done m f h h' = ap (λ m. m >>= f) h ∙ h'
