-- ===== src/Base/Effects.antt =====
-- Go's `error` as a value, and code that changes a state and may return an error. What was done
-- before an error stays done, so the state comes back beside the error too. Log lines are left out.
use Prim.Native.Nat.{ℕ}
use Prim.Native.String.{String}
use mathlib.Core.Option.{Option, none, some}
use mathlib.Core.Path.{◌≡◌, refl, sym, ap, ◌∙◌}
use mathlib.Core.Bool.{Bool, true, false}
use native.Mathlib.Omega.{arith}

-- The errors that the program tells apart: a Kubernetes NotFound, an operating system NotExist, the
-- time-out of a retry loop, and all others, each with its text.
pub data Error : Type 0 where
  not_found : String → Error
  not_exist : String → Error
  wait_timeout : Error
  failure : String → Error

-- `err.Error()`
abbrev pub message : Error → String
message (not_found m) = m
message (not_exist m) = m
message wait_timeout = "timed out waiting for the condition"
message (failure m) = m

-- `errors.IsNotFound(err)` of the Kubernetes API machinery
abbrev pub is_not_found : Error → Bool
is_not_found (not_found m) = true
is_not_found e = false

-- `os.IsNotExist(err)`
abbrev pub is_not_exist : Error → Bool
is_not_exist (not_exist m) = true
is_not_exist e = false

pub data Result {ℓ} (A : Type ℓ) : Type ℓ where
  ok : A → Result A
  err : Error → Result A

abbrev pub Exec {ℓ κ} : Type ℓ → Type κ → Type (ℓ ⊔ κ)
Exec S A = S → Result A × S

module _ {ℓ κ} {S : Type ℓ} {A : Type κ} where
  abbrev pub pure : A → Exec S A
  pure a s = (ok a, s)

  abbrev pub raise : Error → Exec S A
  raise e s = (err e, s)

module _ {ℓ κ μ} {S : Type ℓ} {A : Type κ} {T : Type μ} where
  abbrev pub branch : (A → S → T) → (Error → S → T) → Result A → S → T
  branch f g (ok a) s = f a s
  branch f g (err e) s = g e s

  -- `if x, err := m(); err != nil { g } else { f }`
  abbrev pub handle : Exec S A → (A → S → T) → (Error → S → T) → S → T
  handle m f g s = let (r, s') = m s in branch f g r s'

  -- A step whose error is only logged.
  abbrev pub ignoring : Exec S A → (S → T) → S → T
  ignoring m k = handle m (λ _. k) (λ _. k)

module _ {ℓ κ μ} {S : Type ℓ} {A : Type κ} {B : Type μ} where
  infixl 5 ◌>>=◌
  -- `x, err := m(); if err != nil { return err }; f`
  abbrev pub ◌>>=◌ : Exec S A → (A → Exec S B) → Exec S B
  m >>= f = handle m f raise

  infixl 5 ◌>>◌
  abbrev pub ◌>>◌ : Exec S A → Exec S B → Exec S B
  m >> k = m >>= λ _. k

module _ {ℓ κ μ} {S : Type ℓ} {A : Type κ} {B : Type μ} where
  -- Inversion of a step sequence that returned no error.
  pub bind-eq-ok :
      (m : Exec S A) (f : A → Exec S B) (s : S) {b : B}
      → ((m >>= f) s).0 ≡ ok b
      → (a : A) × ((m s).0 ≡ ok a) × ((m >>= f) s ≡ f a (m s).1)
  bind-eq-ok m f s {b} h = go (m s).0 refl
    where
      go : (r : Result A) → (m s).0 ≡ r → (a : A) × ((m s).0 ≡ ok a) × ((m >>= f) s ≡ f a (m s).1)
      go (ok a) e = (a, e, ground arith)
      go (err x) e = ground arith

module _ {ℓ κ μ} {S : Type ℓ} {A : Type κ} {B : Type μ} where
  -- Where two steps return no error, each of them returns none.
  pub then-eq-ok :
      (m : Exec S A) (k : Exec S B) (s : S) {b : B}
      → ((m >> k) s).0 ≡ ok b
      → ((a : A) × ((m s).0 ≡ ok a)) × ((k (m s).1).0 ≡ ok b)
  then-eq-ok m k s {b} h =
      let (a, e, eq) = bind-eq-ok m (λ _. k) s h in
      ((a, e), sym (ap (λ (r : Result B × S). r.0) eq) ∙ h)

module _ {ℓ κ μ} {S : Type ℓ} {A : Type κ} {B : Type μ} where
  -- A sequence that returns no error, with the state after it.
  pub bind_parts :
      (m : Exec S A) (f : A → Exec S B) (s : S) {b : B}
      → ((m >>= f) s).0 ≡ ok b
      → (a : A) × ((m s).0 ≡ ok a) × ((f a (m s).1).0 ≡ ok b) × (((m >>= f) s).1 ≡ (f a (m s).1).1)
  bind_parts m f s h =
      let (a, e, eq) = bind-eq-ok m f s h in
      (a, e, sym (ap (λ (r : Result B × S). r.0) eq) ∙ h, ap (λ (r : Result B × S). r.1) eq)

  pub then_parts :
      (m : Exec S A) (k : Exec S B) (s : S) {b : B}
      → ((m >> k) s).0 ≡ ok b
      → ((a : A) × ((m s).0 ≡ ok a)) × ((k (m s).1).0 ≡ ok b) × (((m >> k) s).1 ≡ (k (m s).1).1)
  then_parts m k s h =
      let (a, e, second, after) = bind_parts m (λ _. k) s h in ((a, e), second, after)

-- `ctrl.Result` with the error: what a reconciler returns. The delay is in seconds, 0 for none.
pub record Reconciled : Type 0 where
  pub requeue_after : ℕ
  pub error : Option Error

abbrev pub done : Reconciled
done = record { requeue_after = 0; error = none }

abbrev pub failed : Error → Reconciled
failed e = record { requeue_after = 0; error = some e }
