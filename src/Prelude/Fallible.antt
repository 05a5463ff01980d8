-- ===== src/Prelude/Fallible.antt =====
-- Go's `(A, error)`: a value, or an error that the model tells apart by its own type `E`.
use mathlib.Core.Path.{◌≡◌, refl}
use mathlib.Core.Logic.{◌⊎◌, inl, inr}
use mathlib.Core.Bool.{Bool, true, false}
use message_delivery.Prelude.Tests.{if◌then◌else◌}

pub data Fallible {ℓ κ} (E : Type κ) (A : Type ℓ) : Type (ℓ ⊔ κ) where
  ok : A → Fallible E A
  err : E → Fallible E A

-- `if err != nil { return …, err }`
infixl 10 ◌>>=◌
abbrev pub ◌>>=◌ {ℓ μ κ} :
    {E : Type κ} {A : Type ℓ} {B : Type μ} → Fallible E A → (A → Fallible E B) → Fallible E B
ok a >>= f = f a
err e >>= f = err e

-- A chain that succeeds has a first step that did.
pub >>=-eq-ok {ℓ μ κ} :
    {E : Type κ} {A : Type ℓ} {B : Type μ} (first : Fallible E A) (more : A → Fallible E B)
    {result : B}
    → (first >>= more) ≡ ok result
    → (value : A) × (first ≡ ok value) × (more value ≡ ok result)
>>=-eq-ok (err problem) more stopped = cc
>>=-eq-ok (ok value) more went_on = (value, refl, went_on)

-- A test that ends in an error did not end it.
pub guarded-eq-ok {ℓ κ} :
    {E : Type κ} {A : Type ℓ} (test : Bool) (e : E) (m : Fallible E A) {a : A}
    → (if test then err e else m) ≡ ok a
    → (test ≡ false) × (m ≡ ok a)
guarded-eq-ok true e m h = cc
guarded-eq-ok false e m h = (refl, h)

pub Fallible-cases {ℓ κ} :
    {E : Type κ} {A : Type ℓ} (r : Fallible E A) → ((a : A) × (r ≡ ok a)) ⊎ ((e : E) × (r ≡ err e))
Fallible-cases (ok a) = inl (a, refl)
Fallible-cases (err e) = inr (e, refl)
