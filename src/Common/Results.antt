-- ===== src/Common/Results.antt =====
-- Calls that may fail: without a state, and on a state that comes back either way.
use mathlib.Core.Logic.{◌⊎◌, inl, inr}
use mathlib.Core.Path.{◌≡◌, refl}

-- What a function without effects returns: a value or an error code.
pub data Result {ℓ} (E A : Type ℓ) : Type ℓ where
  value : A → Result E A
  error : E → Result E A

-- What a call returns, and the state that it leaves.
pub data Outcome {ℓ} (E S A : Type ℓ) : Type ℓ where
  done : A → S → Outcome E S A
  fail : E → S → Outcome E S A

-- The state that a call leaves, whether it succeeds or not.
abbrev pub left_by {ℓ} : {E S A : Type ℓ} → Outcome E S A → S
left_by (done a s) = s
left_by (fail e s) = s

-- Go on with a value, and stop at an error.
abbrev pub bind {ℓ} : {E A B : Type ℓ} → Result E A → (A → Result E B) → Result E B
bind (value a) f = f a
bind (error e) f = error e

pub bind_ext {ℓ} :
    {E A B : Type ℓ} (r : Result E A) (f g : A → Result E B)
    → ((a : A) → f a ≡ g a)
    → bind r f ≡ bind r g
bind_ext (value a) f g h = h a
bind_ext (error e) f g h = refl

pub bind-value {ℓ} : {E A : Type ℓ} (r : Result E A) → bind r (λ a. value a) ≡ r
bind-value (value a) = refl
bind-value (error e) = refl

pub Result-cases {ℓ} :
    {E A : Type ℓ} (r : Result E A) → ((a : A) × (r ≡ value a)) ⊎ ((e : E) × (r ≡ error e))
Result-cases (value a) = inl (a, refl)
Result-cases (error e) = inr (e, refl)

pub Outcome-cases {ℓ} :
    {E S A : Type ℓ} (r : Outcome E S A)
    → ((a : A) × (s : S) × (r ≡ done a s)) ⊎ ((e : E) × (s : S) × (r ≡ fail e s))
Outcome-cases (done a s) = inl (a, s, refl)
Outcome-cases (fail e s) = inr (e, s, refl)

-- Go on with the value and the state, and stop at a failure.
abbrev pub proceed {ℓ} :
    {E S A B : Type ℓ} → Outcome E S A → (A → S → Outcome E S B) → Outcome E S B
proceed (done a s) f = f a s
proceed (fail e s) f = fail e s
