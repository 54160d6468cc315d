-- ===== src/Common/Outcome.antt =====
-- What a call of a C function comes to: a result, a fault (a read or write through a bad pointer, a
-- division by zero), a call of `exit`, or a loop that has used up the rounds that the model gives it.
use legacy_point_monitor.Common.Int.{ℤ}
use mathlib.Core.Path.{◌≡◌, refl}

pub data Outcome {ℓ} (A : Type ℓ) : Type ℓ where
  ok : A → Outcome A
  fault : Outcome A
  exited : ℤ → Outcome A
  out_of_fuel : Outcome A

infixl 5 ◌>>=◌
abbrev pub ◌>>=◌ {ℓ κ} : {R : Type ℓ} {S : Type κ} → Outcome R → (R → Outcome S) → Outcome S
ok r >>= next = next r
exited status >>= next = exited status
out_of_fuel >>= next = out_of_fuel
fault >>= next = fault

-- If two calls in a row return, the first one returned.
pub first_returns {ℓ κ} :
    {R : Type ℓ} {S : Type κ} (first : Outcome R) (next : R → Outcome S) {s : S}
    → (first >>= next) ≡ ok s
    → (r : R) × (first ≡ ok r) × (next r ≡ ok s)
first_returns fault next e = cc
first_returns out_of_fuel next e = cc
first_returns (exited status) next e = cc
first_returns (ok r) next e = (r, refl, e)

pub eq_of_ok {ℓ} : {A : Type ℓ} (a b : A) → ok a ≡ ok b → a ≡ b
eq_of_ok a b e = cc

-- If the call returns, its result has the property.
abbrev pub Ensures {ℓ κ} : {A : Type ℓ} → (A → Type κ) → Outcome A → Type κ
Ensures P (ok a) = P a
Ensures P fault = Unit {κ}
Ensures P (exited status) = Unit {κ}
Ensures P out_of_fuel = Unit {κ}

pub Ensures-bind {ℓ κ μ ν} :
    {A : Type ℓ} {B : Type κ} (P : A → Type μ) (Q : B → Type ν) (first : Outcome A)
    (next : A → Outcome B)
    → Ensures P first
    → ((a : A) → P a → Ensures Q (next a))
    → Ensures Q (first >>= next)
Ensures-bind P Q (ok a) next e each = each a e
Ensures-bind P Q fault next e each = tt
Ensures-bind P Q (exited status) next e each = tt
Ensures-bind P Q out_of_fuel next e each = tt

-- The same after a call of which nothing is known.
pub Ensures-then {ℓ κ ν} :
    {A : Type ℓ} {B : Type κ} (Q : B → Type ν) (first : Outcome A) (next : A → Outcome B)
    → ((a : A) → Ensures Q (next a))
    → Ensures Q (first >>= next)
Ensures-then Q (ok a) next each = each a
Ensures-then Q fault next each = tt
Ensures-then Q (exited status) next each = tt
Ensures-then Q out_of_fuel next each = tt

pub Ensures-imply {ℓ κ ν} :
    {A : Type ℓ} (P : A → Type κ) (Q : A → Type ν) (o : Outcome A)
    → ((a : A) → P a → Q a)
    → Ensures P o
    → Ensures Q o
Ensures-imply P Q (ok a) each e = each a e
Ensures-imply P Q fault each e = tt
Ensures-imply P Q (exited status) each e = tt
Ensures-imply P Q out_of_fuel each e = tt
