-- ===== src/Base/Fallible.antt =====
-- The chain of two calls the first of which may end the process, and predicates of what comes back.
use mathlib.Core.Option.{Option, none, some}

infixl 5 ◌>>=◌
abbrev pub ◌>>=◌ {ℓ κ} : {A : Type ℓ} {B : Type κ} → Option A → (A → Option B) → Option B
none >>= k = none
some a >>= k = k a

-- A predicate of the result, where there is one.
unfoldable pub Yields {ℓ κ} : {A : Type ℓ} → (A → Type κ) → Option A → Type κ
Yields P none = Unit
Yields P (some a) = P a

pub yield {ℓ κ} : {A : Type ℓ} (P : A → Type κ) {a : A} → P a → Yields P (some a)
unfolding Yields
yield P p = p

pub Yields-bind {ℓ κ μ ν} :
    {A : Type ℓ} {B : Type κ} (P : A → Type μ) (Q : B → Type ν) (o : Option A) (k : A → Option B)
    → Yields P o
    → ((a : A) → P a → Yields Q (k a))
    → Yields Q (o >>= k)
unfolding Yields
Yields-bind P Q none k h step = tt
Yields-bind P Q (some a) k h step = step a h
