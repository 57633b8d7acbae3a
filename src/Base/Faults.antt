-- ===== src/Base/Faults.antt =====
-- Fallible code: `none` is an access outside an array or through a bad pointer, where C has no
-- defined behaviour.
use mathlib.Core.Path.{◌≡◌, refl}
use mathlib.Core.Bool.{Bool, true, false}
use mathlib.Core.Option.{Option, none, some}
use night.Base.Tests.{if◌then◌else◌}

infixl 5 ◌>>=◌
abbrev pub ◌>>=◌ {ℓ κ} : {A : Type ℓ} {B : Type κ} → Option A → (A → Option B) → Option B
none >>= f = none
some a >>= f = f a

-- Inversion of a bind that returns.
pub >>=-eq-some {ℓ κ} :
    {A : Type ℓ} {B : Type κ} (m : Option A) (f : A → Option B) {b : B}
    → (m >>= f) ≡ some b
    → (a : A) × (m ≡ some a) × (f a ≡ some b)
>>=-eq-some none f h = cc
>>=-eq-some (some a) f h = (a, refl, h)

-- The code returns: there is no fault, and fuel was enough.
pub data Returns {ℓ} {A : Type ℓ} : Option A → Type ℓ where
  returns : (a : A) → Returns (some a)

pub Returns-eq {ℓ} : {A : Type ℓ} {o : Option A} → Returns o → (a : A) × (o ≡ some a)
Returns-eq (returns a) = (a, refl)

pub Returns-if {ℓ} :
    {A : Type ℓ} {x y : Option A} (b : Bool) → Returns x → Returns y → Returns (if b then x else y)
Returns-if true p q = p
Returns-if false p q = q

pub Returns->>= {ℓ κ} :
    {A : Type ℓ} {B : Type κ} {m : Option A} {f : A → Option B}
    → Returns m
    → ((a : A) → Returns (f a))
    → Returns (m >>= f)
Returns->>= (returns a) h = h a
