-- ===== src/Base/Maps.antt =====
-- Go's maps with texts as keys, as association lists.
use Prim.Native.String.{String}
use mathlib.Core.Path.{◌≡◌, refl}
use mathlib.Core.Option.{Option, none, some}
use mathlib.Core.List.{List, [], ◌∷◌}
use native.Mathlib.Omega.{arith}
use text.Mathlib.Text.{◌==◌}
use text.Mathlib.TextEquality.{eq_iff}
use openshift_operator.Base.Tests.{if◌then◌else◌}

module _ {ℓ} {A : Type ℓ} where
  -- `m[k]`
  unfoldable pub lookup : String → List (String × A) → Option A
  lookup k [] = none
  lookup k ((k', v) ∷ m) = if k' == k then some v else lookup k m

  -- `m[k] = v`
  unfoldable pub put : String → A → List (String × A) → List (String × A)
  put k v [] = (k, v) ∷ []
  put k v ((k', v') ∷ m) = if k' == k then (k, v) ∷ m else (k', v') ∷ put k v m

  pub lookup-put :
      (k j : String) (v : A) (m : List (String × A))
      → lookup j (put k v m) ≡ (if k == j then some v else lookup j m)
  unfolding lookup put
  lookup-put k j v [] = refl
  lookup-put k j v ((k', v') ∷ m) =
      ground (arith, lookup-put k j v m, eq_iff k' k, eq_iff k j, eq_iff k' j)
