-- ===== src/Base/Outcome.antt =====
-- The result of code that may call `sbi_hart_hang`: the hart stops there, and nothing follows.
use mathlib.Core.Path.{◌≡◌, refl}
use mathlib.Core.Bool.{Bool, true, false}
use mathlib.Core.Logic.{◌⊎◌, inl, inr}

pub data Outcome {ℓ} (A : Type ℓ) : Type ℓ where
  ret : A → Outcome A
  hang : Outcome A

infixl 5 ◌>>=◌ ◌>>◌
abbrev pub ◌>>=◌ {ℓ κ} : {A : Type ℓ} {B : Type κ} → Outcome A → (A → Outcome B) → Outcome B
ret a >>= f = f a
hang >>= f = hang

abbrev pub ◌>>◌ {ℓ} : {B : Type ℓ} → Outcome (Unit {0}) → Outcome B → Outcome B
m >> k = m >>= λ _. k

-- `sm_assert`: a condition that fails hangs the hart.
abbrev pub sm_assert : Bool → Outcome (Unit {0})
sm_assert true = ret tt
sm_assert false = hang

pub Outcome-cases {ℓ} : {A : Type ℓ} (m : Outcome A) → (m ≡ hang) ⊎ ((a : A) × (m ≡ ret a))
Outcome-cases (ret a) = inr (a, refl)
Outcome-cases hang = inl refl

-- The code returns, with a result for which `P` holds.
pub data Returns {ℓ κ} {A : Type ℓ} (P : A → Type κ) : Outcome A → Type (ℓ ⊔ κ) where
  returns : {a : A} → P a → Returns P (ret a)

pub Returns-bind {ℓ κ μ υ} :
    {A : Type ℓ} {B : Type κ} {P : A → Type μ} {Q : B → Type υ} {m : Outcome A} {f : A → Outcome B}
    → Returns P m
    → ((a : A) → P a → Returns Q (f a))
    → Returns Q (m >>= f)
Returns-bind (returns {a = a} h) k = k a h

pub Returns-assert {κ υ} :
    {B : Type κ} {Q : B → Type υ} {b : Bool} {k : Outcome B}
    → b ≡ true
    → Returns Q k
    → Returns Q (sm_assert b >> k)
Returns-assert {b = true} e h = h
Returns-assert {b = false} e h = cc

pub Returns-result {ℓ κ} :
    {A : Type ℓ} {P : A → Type κ} {m : Outcome A} → Returns P m → (a : A) × (m ≡ ret a) × P a
Returns-result (returns {a = a} h) = (a, refl, h)

-- The predicate may name the run itself.
pub Returns-self {ℓ κ} :
    {A : Type ℓ} {P : A → Type κ} {m : Outcome A} → Returns P m → Returns (λ a. (m ≡ ret a) × P a) m
Returns-self (returns h) = returns (refl, h)

pub Returns-map {ℓ κ μ} :
    {A : Type ℓ} {P : A → Type κ} {Q : A → Type μ} {m : Outcome A}
    → ((a : A) → P a → Q a)
    → Returns P m
    → Returns Q m
Returns-map f (returns {a = a} h) = returns (f a h)

pub ret-injective {ℓ} : {A : Type ℓ} {a b : A} → ret a ≡ ret b → a ≡ b
ret-injective e = cc
