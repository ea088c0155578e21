-- ===== src/Prelude/Effects.antt =====
-- How a C function ends: it returns, it touches memory outside of a block, or it loops for ever.
use mathlib.Core.Path.{◌≡◌, refl}
use mathlib.Core.Option.{Option, none, some}

-- `diverges` is the value of a loop whose fuel has run out.
pub data Outcome {ℓ} (A : Type ℓ) : Type ℓ where
  returns : A → Outcome A
  fault : Outcome A
  diverges : Outcome A

infixl 5 ◌>>=◌
abbrev pub ◌>>=◌ {ℓ κ} : {A : Type ℓ} {B : Type κ} → Outcome A → (A → Outcome B) → Outcome B
returns a >>= f = f a
fault >>= f = fault
diverges >>= f = diverges

-- An access that stays inside of its block, or a fault.
abbrev pub within {ℓ} : {A : Type ℓ} → Option A → Outcome A
within none = fault
within (some a) = returns a

-- The function returns, and its result satisfies `P`.
abbrev pub Returns {ℓ} : {A : Type ℓ} → Outcome A → (A → Type 0) → Type 0
Returns (returns a) P = P a
Returns fault P = ⊥
Returns diverges P = ⊥

-- What `Returns` says of a computed outcome.
pub Returns-eq {ℓ} :
    {A : Type ℓ} (o : Outcome A) (P : A → Type 0) → Returns o P → (a : A) × (o ≡ returns a) × P a
Returns-eq (returns a) P h = (a, refl, h)
Returns-eq fault P h = absurd h
Returns-eq diverges P h = absurd h

pub Returns-bind {ℓ κ} :
    {A : Type ℓ} {B : Type κ} (o : Outcome A) (f : A → Outcome B) (P : A → Type 0) (Q : B → Type 0)
    → Returns o P
    → ((a : A) → P a → Returns (f a) Q)
    → Returns (o >>= f) Q
Returns-bind (returns a) f P Q h k = k a h
Returns-bind fault f P Q h k = absurd h
Returns-bind diverges f P Q h k = absurd h

pub Returns-mono {ℓ} :
    {A : Type ℓ} (o : Outcome A) (P Q : A → Type 0)
    → Returns o P
    → ((a : A) → P a → Q a)
    → Returns o Q
Returns-mono (returns a) P Q h k = k a h
Returns-mono fault P Q h k = absurd h
Returns-mono diverges P Q h k = absurd h

pub Returns-both {ℓ} :
    {A : Type ℓ} (o : Outcome A) (P Q : A → Type 0)
    → Returns o P
    → Returns o Q
    → Returns o (λ a. P a × Q a)
Returns-both (returns a) P Q h k = (h, k)
Returns-both fault P Q h k = absurd h
Returns-both diverges P Q h k = absurd h

-- `o` returns, and its result satisfies each of many statements.
pub Returns-all {ℓ} :
    {A : Type ℓ} {B : Type 0} (o : Outcome A) (P : A → Type 0) (Q : B → A → Type 0)
    → Returns o P
    → ((b : B) → Returns o (Q b))
    → Returns o (λ a. P a × ((b : B) → Q b a))
Returns-all (returns a) P Q h k = (h, k)
Returns-all fault P Q h k = absurd h
Returns-all diverges P Q h k = absurd h
