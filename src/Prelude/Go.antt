-- ===== src/Prelude/Go.antt =====
-- Go's slices and panics. A Go function that may panic returns an `Outcome`.
use mathlib.Core.Path.{◌≡◌, refl, ap}
use mathlib.Core.List.{List}
use mathlib.Core.Option.{Option, none, some}
use model_lib.Prelude.Tests.{leb, ltb, if◌then◌else◌}
use model_lib.Prelude.Lists.{length, get_elem?, set, take, drop}
use model_lib.Prelude.Int.{ℤ, pos, negsuc}

-- The run-time panic of a slice, and the `panic` calls of the Raft code.
pub data Panic : Type 0 where
  index_out_of_range : Panic
  should_found_prev_log_index : Panic
  should_found_start_index : Panic
  snapshot_inconsistent : Panic
  commit_index_inconsistent : Panic
  log_inconsistent : Panic

pub data Outcome {ℓ} (A : Type ℓ) : Type ℓ where
  ok : A → Outcome A
  panic : Panic → Outcome A

infixl 5 ◌>>=◌
abbrev pub ◌>>=◌ {ℓ κ} : {A : Type ℓ} {B : Type κ} → Outcome A → (A → Outcome B) → Outcome B
ok a >>= f = f a
panic p >>= f = panic p

pub ok-injective {ℓ} : {A : Type ℓ} {a b : A} → ok a ≡ ok b → a ≡ b
ok-injective e = cc

-- A step that returns goes on with its value.
pub bind_ok {ℓ κ} :
    {A : Type ℓ} {B : Type κ} {m : Outcome A} {a : A} (f : A → Outcome B)
    → m ≡ ok a
    → (m >>= f) ≡ f a
bind_ok f e = ap (λ o. o >>= f) e

-- A step that panics is the last one.
pub bind_panic {ℓ κ} :
    {A : Type ℓ} {B : Type κ} {m : Outcome A} {p : Panic} (f : A → Outcome B)
    → m ≡ panic p
    → (m >>= f) ≡ panic p
bind_panic f e = ap (λ o. o >>= f) e

pub bind-eq-ok {ℓ κ} :
    {A : Type ℓ} {B : Type κ} (m : Outcome A) (f : A → Outcome B) {b : B}
    → (m >>= f) ≡ ok b
    → (a : A) × (m ≡ ok a) × (f a ≡ ok b)
bind-eq-ok (ok a) f h = (a, refl, h)
bind-eq-ok (panic p) f h = cc

module _ {ℓ} {A : Type ℓ} where
  abbrev pub or_panic : Option A → Outcome A
  or_panic none = panic index_out_of_range
  or_panic (some a) = ok a

  -- `xs[i]`
  abbrev pub get : List A → ℤ → Outcome A
  get xs (pos n) = or_panic (get_elem? xs n)
  get xs (negsuc n) = panic index_out_of_range

  -- `xs[i] = v`
  abbrev pub put : List A → ℤ → A → Outcome (List A)
  put xs (pos n) v = if ltb n (length xs) then ok (set xs n v) else panic index_out_of_range
  put xs (negsuc n) v = panic index_out_of_range

  -- `xs[:i]`, for a bound within the length
  abbrev pub slice_to : List A → ℤ → Outcome (List A)
  slice_to xs (pos n) = if leb n (length xs) then ok (take n xs) else panic index_out_of_range
  slice_to xs (negsuc n) = panic index_out_of_range

  -- `xs[i:]`
  abbrev pub slice_from : List A → ℤ → Outcome (List A)
  slice_from xs (pos n) = if leb n (length xs) then ok (drop n xs) else panic index_out_of_range
  slice_from xs (negsuc n) = panic index_out_of_range
