-- ===== src/Prelude/Ensures.antt =====
-- A postcondition of Go code that may panic: what holds of its result if it returns.
use mathlib.Core.Path.{◌≡◌, refl, subst}
use mathlib.Core.Bool.{Bool, true, false}
use model_lib.Prelude.Tests.{if◌then◌else◌}
use model_lib.Prelude.Go.{Outcome, Panic, ok, panic, ok-injective, ◌>>=◌}

pub data Ensures {ℓ κ} {A : Type ℓ} (P : A → Type κ) (o : Outcome A) : Type (ℓ ⊔ κ) where
  ensuring : ((a : A) → o ≡ ok a → P a) → Ensures P o

pub ensured {ℓ κ} :
    {A : Type ℓ} {P : A → Type κ} {o : Outcome A} → Ensures P o → (a : A) → o ≡ ok a → P a
ensured (ensuring h) = h

pub Ensures-ok {ℓ κ} : {A : Type ℓ} (P : A → Type κ) (a : A) → P a → Ensures P (ok a)
Ensures-ok P a p = ensuring (λ b e. subst P (ok-injective e) p)

pub Ensures-panic {ℓ κ} : {A : Type ℓ} (P : A → Type κ) (p : Panic) → Ensures P (panic p)
Ensures-panic P p = ensuring (λ b e. cc)

pub Ensures-if {ℓ κ} :
    {A : Type ℓ} (P : A → Type κ) (b : Bool) (x y : Outcome A)
    → Ensures P x
    → Ensures P y
    → Ensures P (if b then x else y)
Ensures-if P true x y h k = h
Ensures-if P false x y h k = k

pub Ensures-then {ℓ κ μ ν} :
    {A : Type ℓ} {B : Type κ} (P : A → Type μ) (Q : B → Type ν) (m : Outcome A) (f : A → Outcome B)
    → Ensures P m
    → ((a : A) → P a → Ensures Q (f a))
    → Ensures Q (m >>= f)
Ensures-then P Q (ok a) f h k = k a (ensured h a refl)
Ensures-then P Q (panic p) f h k = Ensures-panic Q p

-- The same where nothing of the first result is needed.
pub Ensures-bind {ℓ κ ν} :
    {A : Type ℓ} {B : Type κ} (Q : B → Type ν) (m : Outcome A) (f : A → Outcome B)
    → ((a : A) → Ensures Q (f a))
    → Ensures Q (m >>= f)
Ensures-bind Q (ok a) f k = k a
Ensures-bind Q (panic p) f k = Ensures-panic Q p

pub ruleset ensures = (Ensures-ok, Ensures-panic, Ensures-if, Ensures-bind)
