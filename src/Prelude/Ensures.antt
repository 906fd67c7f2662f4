-- ===== src/Prelude/Ensures.antt =====
-- What holds of the result of a chain of steps that may fault, if it does not.
use mathlib.Core.Path.{◌≡◌, subst}
use mathlib.Core.Bool.{Bool, true, false}
use mathlib.Core.Option.{Option, none, some}
use virtual_operating_system.Prelude.Tests.{◌>>=◌, if◌then◌else◌}

abbrev pub Ensures {ℓ κ} : {A : Type ℓ} → (A → Type κ) → Option A → Type κ
Ensures P none = Unit
Ensures P (some a) = P a

pub Ensures-bind {ℓ κ ι} :
    {A B : Type ℓ} (P : A → Type κ) (Q : B → Type ι) (o : Option A) (f : A → Option B)
    → Ensures P o
    → ((a : A) → P a → Ensures Q (f a))
    → Ensures Q (o >>= f)
Ensures-bind P Q none f h k = tt
Ensures-bind P Q (some a) f h k = k a h

-- A step whose result does not matter.
pub Ensures-step {ℓ κ} :
    {A B : Type ℓ} (Q : B → Type κ) (o : Option A) (f : A → Option B)
    → ((a : A) → Ensures Q (f a))
    → Ensures Q (o >>= f)
Ensures-step Q none f k = tt
Ensures-step Q (some a) f k = k a

pub Ensures-if {ℓ κ} :
    {A : Type ℓ} (P : A → Type κ) (b : Bool) (x y : Option A)
    → Ensures P x
    → Ensures P y
    → Ensures P (if b then x else y)
Ensures-if P true x y hx hy = hx
Ensures-if P false x y hx hy = hy

pub Ensures-eq_some {ℓ κ} :
    {A : Type ℓ} (P : A → Type κ) (o : Option A) {a : A} → Ensures P o → o ≡ some a → P a
Ensures-eq_some P o h e = subst (Ensures P) e h
