-- ===== src/Base/Frame.antt =====
-- Steps that keep a part of the state: what they are made of keeps it.
use mathlib.Core.Path.{◌≡◌, refl, ◌∙◌}
use native.Mathlib.Omega.{arith}
use mathlib.Core.Bool.{Bool, true, false}
use openshift_operator.Base.Tests.{if◌then◌else◌}
use openshift_operator.Base.Effects.{Error, Result, ok, err, Exec, raise, handle, ◌>>=◌, ◌>>◌}

module _ {ℓ κ μ} {S : Type ℓ} {T : Type κ} {A : Type μ} where
  -- Whatever the step returns, `view` of the state is as before.
  abbrev pub Keeps : (S → T) → Exec S A → Type (ℓ ⊔ κ)
  Keeps view m = (s : S) → view (m s).1 ≡ view s

module _ {ℓ κ μ ν} {S : Type ℓ} {T : Type κ} {A : Type μ} {B : Type ν} where
  pub handle-Keeps :
      (view : S → T) (m : Exec S A) (f : A → Exec S B) (g : Error → Exec S B)
      → Keeps view m
      → ((a : A) → Keeps view (f a))
      → ((e : Error) → Keeps view (g e))
      → Keeps view (handle m f g)
  handle-Keeps view m f g h hf hg s = by_result (m s).0 refl
    where
      by_result : (r : Result A) → (m s).0 ≡ r → view (handle m f g s).1 ≡ view s
      by_result (ok a) e = rw e (hf a (m s).1 ∙ h s)
      by_result (err x) e = rw e (hg x (m s).1 ∙ h s)

  pub bind-Keeps :
      (view : S → T) (m : Exec S A) (f : A → Exec S B)
      → Keeps view m
      → ((a : A) → Keeps view (f a))
      → Keeps view (m >>= f)
  bind-Keeps view m f h hf = handle-Keeps view m f raise h hf (λ e s. refl)

  pub then-Keeps :
      (view : S → T) (m : Exec S A) (k : Exec S B)
      → Keeps view m
      → Keeps view k
      → Keeps view (m >> k)
  then-Keeps view m k h g = bind-Keeps view m (λ _. k) h (λ _. g)

  -- The same from one state.
  pub then_keeps_at :
      (view : S → T) (m : Exec S A) (k : Exec S B) (s : S)
      → view (m s).1 ≡ view s
      → view (k (m s).1).1 ≡ view (m s).1
      → view ((m >> k) s).1 ≡ view s
  then_keeps_at view m k s h g = by_result (m s).0 refl
    where
      by_result : (r : Result A) → (m s).0 ≡ r → view ((m >> k) s).1 ≡ view s
      by_result (ok a) e = rw e (g ∙ h)
      by_result (err x) e = rw e h

module _ {ℓ κ μ ν} {S : Type ℓ} {X : Type κ} {A : Type μ} {T : Type ν} where
  -- The same where a step is followed by code that ends with something else, of which `out` is what
  -- corresponds to the view.
  pub handle_unchanged :
      (view : S → X) (out : T → X) (m : Exec S A) (f : A → S → T) (g : Error → S → T)
      → Keeps view m
      → ((a : A) (s : S) → out (f a s) ≡ view s)
      → ((e : Error) (s : S) → out (g e s) ≡ view s)
      → (s : S) → out (handle m f g s) ≡ view s
  handle_unchanged view out m f g h hf hg s = by_result (m s).0 refl
    where
      by_result : (r : Result A) → (m s).0 ≡ r → out (handle m f g s) ≡ view s
      by_result (ok a) e = rw e (hf a (m s).1 ∙ h s)
      by_result (err x) e = rw e (hg x (m s).1 ∙ h s)

module _ {ℓ κ μ} {S : Type ℓ} {T : Type κ} {A : Type μ} where
  pub if-Keeps :
      (view : S → T) (b : Bool) (m n : Exec S A)
      → Keeps view m
      → Keeps view n
      → Keeps view (if b then m else n)
  if-Keeps view true m n h k = h
  if-Keeps view false m n h k = k

module _ {ℓ κ μ} {S : Type ℓ} {A : Type κ} where
  -- What holds of the value and the state wherever the step returns no error.
  abbrev pub Ensures : (A → S → Type μ) → Exec S A → Type (ℓ ⊔ κ ⊔ μ)
  Ensures P m = (s : S) (a : A) → (m s).0 ≡ ok a → P a (m s).1

  pub raise-Ensures : (P : A → S → Type μ) (e : Error) → Ensures P (raise e)
  raise-Ensures P e s a h = absurd (ground (arith, h))

  pub if-Ensures :
      (P : A → S → Type μ) (b : Bool) (m n : Exec S A)
      → (b ≡ true → Ensures P m)
      → (b ≡ false → Ensures P n)
      → Ensures P (if b then m else n)
  if-Ensures P true m n h k = h refl
  if-Ensures P false m n h k = k refl

module _ {ℓ κ μ ν} {S : Type ℓ} {A : Type κ} {B : Type μ} where
  -- What follows a step decides, on the values that the step returns.
  pub handle-Ensures :
      (P : B → S → Type ν) (m : Exec S A) (f : A → Exec S B) (g : Error → Exec S B)
      → ((a : A) → Ensures P (f a))
      → ((e : Error) → Ensures P (g e))
      → Ensures P (handle m f g)
  handle-Ensures P m f g hf hg s b h = by_result (m s).0 refl
    where
      by_result : (r : Result A) → (m s).0 ≡ r → P b (handle m f g s).1
      by_result (ok a) e = rw e (hf a (m s).1 b (rw e at h))
      by_result (err x) e = rw e (hg x (m s).1 b (rw e at h))

  pub bind-Ensures :
      (P : B → S → Type ν) (m : Exec S A) (f : A → Exec S B)
      → ((a : A) → Ensures P (f a))
      → Ensures P (m >>= f)
  bind-Ensures P m f hf = handle-Ensures P m f raise hf (raise-Ensures P)

module _ {ℓ κ μ ν} {S : Type ℓ} {A : Type κ} where
  pub weaken-Ensures :
      (P : A → S → Type μ) (Q : A → S → Type ν) (m : Exec S A)
      → ((a : A) (s : S) → P a s → Q a s)
      → Ensures P m
      → Ensures Q m
  weaken-Ensures P Q m f h s a e = f a (m s).1 (h s a e)

module _ {ℓ κ μ} {S : Type ℓ} {A : Type κ} where
  -- What holds before a step holds after it, whatever the step returns.
  abbrev pub Preserves : (S → Type μ) → Exec S A → Type (ℓ ⊔ μ)
  Preserves P m = (s : S) → P s → P (m s).1

  pub if-Preserves :
      (P : S → Type μ) (b : Bool) (m n : Exec S A)
      → Preserves P m
      → Preserves P n
      → Preserves P (if b then m else n)
  if-Preserves P true m n h k = h
  if-Preserves P false m n h k = k

module _ {ℓ κ μ ν} {S : Type ℓ} {A : Type κ} {B : Type μ} where
  pub handle-Preserves :
      (P : S → Type ν) (m : Exec S A) (f : A → Exec S B) (g : Error → Exec S B)
      → Preserves P m
      → ((a : A) → Preserves P (f a))
      → ((e : Error) → Preserves P (g e))
      → Preserves P (handle m f g)
  handle-Preserves P m f g h hf hg s p = by_result (m s).0 refl
    where
      by_result : (r : Result A) → (m s).0 ≡ r → P (handle m f g s).1
      by_result (ok a) e = rw e (hf a (m s).1 (h s p))
      by_result (err x) e = rw e (hg x (m s).1 (h s p))

  pub bind-Preserves :
      (P : S → Type ν) (m : Exec S A) (f : A → Exec S B)
      → Preserves P m
      → ((a : A) → Preserves P (f a))
      → Preserves P (m >>= f)
  bind-Preserves P m f h hf = handle-Preserves P m f raise h hf (λ e s p. p)

  pub then-Preserves :
      (P : S → Type ν) (m : Exec S A) (k : Exec S B)
      → Preserves P m
      → Preserves P k
      → Preserves P (m >> k)
  then-Preserves P m k h g = bind-Preserves P m (λ _. k) h (λ _. g)
