-- ===== src/Prelude/Results.antt =====
-- Results of fallible Go functions, `(value, error)`: the value or the error, never both.
use mathlib.Core.Path.{◌≡◌, refl}
use mathlib.Core.Logic.{◌⊎◌, inl, inr}
use mathlib.Core.Option.{Option, none, some}
use mathlib.Core.Bool.{Bool, true, false}

pub data Result {ℓ κ} (E : Type ℓ) (A : Type κ) : Type (ℓ ⊔ κ) where
  ok : A → Result E A
  err : E → Result E A

module _ {ℓ κ} {E : Type ℓ} {A : Type κ} where
  -- `if err != nil { return …, other }`
  abbrev pub with_error : E → Option A → Result E A
  with_error e none = err e
  with_error e (some a) = ok a

  -- the value of a result, if it has one
  abbrev pub to_option : Result E A → Option A
  to_option (ok a) = some a
  to_option (err e) = none

-- `value, err := first; if err != nil { return …, err }`, and what comes behind it
module _ {ℓ κ μ} {E : Type ℓ} {X : Type κ} {Y : Type μ} where
  infixl 5 ◌>>=◌
  abbrev pub ◌>>=◌ : Result E X → (X → Result E Y) → Result E Y
  err problem >>= next = err problem
  ok value >>= next = next value

  -- A chain that succeeded got a value from its first step.
  pub >>=-eq-ok :
      (first : Result E X) (next : X → Result E Y) {out : Y}
      → (first >>= next) ≡ ok out
      → (value : X) × (first ≡ ok value) × (next value ≡ ok out)
  >>=-eq-ok (err problem) next h = cc
  >>=-eq-ok (ok value) next h = (value, refl, h)

module _ {ℓ μ} {E : Type ℓ} {Y : Type μ} where
  infixl 5 ◌>>◌
  abbrev pub ◌>>◌ : Result E (Unit {0}) → Result E Y → Result E Y
  first >> next = first >>= λ _. next

-- `if condition { return …, err }`
abbrev pub reject_if {ℓ} : {E : Type ℓ} → Bool → E → Result E (Unit {0})
reject_if false problem = ok tt
reject_if true problem = err problem

-- A test that did not stop the function was false.
pub reject_if-eq-ok {ℓ μ} :
    {E : Type ℓ} {B : Type μ} (t : Bool) (e : E) (k : Result E B) {b : B}
    → (reject_if t e >> k) ≡ ok b
    → (t ≡ false) × (k ≡ ok b)
reject_if-eq-ok true e k h = cc
reject_if-eq-ok false e k h = (refl, h)

pub with_error-eq-ok {ℓ κ} :
    {E : Type ℓ} {A : Type κ} (e : E) (o : Option A) {a : A} → with_error e o ≡ ok a → o ≡ some a
with_error-eq-ok e none h = cc
with_error-eq-ok e (some a) h = cc

pub Result-cases {ℓ κ} :
    {E : Type ℓ} {A : Type κ} (r : Result E A) → ((a : A) × (r ≡ ok a)) ⊎ ((e : E) × (r ≡ err e))
Result-cases (ok a) = inl (a, refl)
Result-cases (err e) = inr (e, refl)

pub ok_eq {ℓ κ} : {E : Type ℓ} {A : Type κ} {a b : A} → Path (Result E A) (ok a) (ok b) → a ≡ b
ok_eq h = cc
