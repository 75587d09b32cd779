-- ===== src/Prelude/Panics.antt =====
-- A Go call that may panic.
use mathlib.Core.Path.{◌≡◌, refl}
use mathlib.Core.Logic.{◌⊎◌, inl, inr}
use mathlib.Core.Option.{Option, none, some}

pub data Outcome {ℓ} (A : Type ℓ) : Type ℓ where
  done : A → Outcome A
  panicked : Outcome A

infixl 5 ◌>>=◌
abbrev pub ◌>>=◌ {ℓ κ} : {A : Type ℓ} {B : Type κ} → Outcome A → (A → Outcome B) → Outcome B
done a >>= f = f a
panicked >>= f = panicked

-- An index out of range and a nil pointer panic.
abbrev pub must {ℓ} : {A : Type ℓ} → Option A → Outcome A
must none = panicked
must (some a) = done a

pub Outcome-cases {ℓ} : {A : Type ℓ} (o : Outcome A) → (o ≡ panicked) ⊎ ((a : A) × (o ≡ done a))
Outcome-cases panicked = inl refl
Outcome-cases (done a) = inr (a, refl)

-- What holds of a call's result, if it returns one.
abbrev pub Returns {ℓ} : {A : Type ℓ} → (A → Type 0) → Outcome A → Type 0
Returns P (done a) = P a
Returns P panicked = Unit {0}

pub Returns->>= :
    {A B : Type 0} (P : A → Type 0) (Q : B → Type 0) (o : Outcome A) (f : A → Outcome B)
    → Returns P o
    → ((a : A) → P a → Returns Q (f a))
    → Returns Q (o >>= f)
Returns->>= P Q (done a) f h k = k a h
Returns->>= P Q panicked f h k = tt

pub Returns-any : {A : Type 0} (o : Outcome A) → Returns (λ a. Unit {0}) o
Returns-any (done a) = tt
Returns-any panicked = tt

pub Returns-mono :
    {A : Type 0} (P Q : A → Type 0) (o : Outcome A)
    → ((a : A) → P a → Q a)
    → Returns P o
    → Returns Q o
Returns-mono P Q (done a) k h = k a h
Returns-mono P Q panicked k h = tt

pub must-some : {A : Type 0} (o : Option A) → Returns (λ a. o ≡ some a) (must o)
must-some none = tt
must-some (some a) = refl
