-- ===== src/Programs/Names/Laws.antt =====
-- The names of the pods of a deployment.
use Prim.Native.Char.{code}
use text.Mathlib.TextLemmas.{nil-append, cons-append, append_assoc}
use openshift_operator.Base.{
  ◌≡◌, refl, ap, ◌∙◌, sym, arith, Bool, true, false, String, ◌<>◌, none, some, eqb, if◌then◌else◌,
}
use openshift_operator.Programs.Names.{before_last_dash, operator_deployment_name}

unfoldable pub has_dash : String → Bool
has_dash String.[] = false
has_dash (String.◌∷◌ c s) = if eqb (code c) b'-' then true else has_dash s

before_last_dash-none : (s : String) → has_dash s ≡ false → before_last_dash s ≡ none
unfolding has_dash before_last_dash
before_last_dash-none String.[] h = refl
before_last_dash-none (String.◌∷◌ c s) h = ground (arith, h, before_last_dash-none s)

before_last_dash-append :
    (s t : String) → has_dash t ≡ false → before_last_dash (s <> ("-" <> t)) ≡ some s
unfolding before_last_dash
before_last_dash-append String.[] t h =
    rw (nil-append ("-" <> t), cons-append "-" "" t, nil-append t, before_last_dash-none t h) refl
before_last_dash-append (String.◌∷◌ c s) t h =
    rw (cons-append c s ("-" <> t), before_last_dash, before_last_dash-append s t h) refl

-- From the name of a pod, which is the name of its deployment, a dash, the hash of the replica set, a
-- dash and the suffix of the pod, the operator reads back the name of the deployment, whatever dashes
-- this has, where the hash and the suffix have none; from a name with one dash or none it reads
-- nothing and panics.
pub operator_deployment_name_lem :
    (name hash suffix : String)
    → has_dash hash ≡ false
    → has_dash suffix ≡ false
    → (operator_deployment_name (name <> ("-" <> (hash <> ("-" <> suffix)))) ≡ some name)
      × (operator_deployment_name (hash <> ("-" <> suffix)) ≡ none)
      × (operator_deployment_name suffix ≡ none)
unfolding operator_deployment_name
operator_deployment_name_lem name hash suffix h g = (
  (let pod : String = "-" <> suffix in
      let regroup : name <> ("-" <> (hash <> pod)) ≡ (name <> ("-" <> hash)) <> pod =
        ap (λ (x : String). name <> x) (sym (append_assoc "-" hash pod))
        ∙ sym (append_assoc name ("-" <> hash) pod) in
      ap operator_deployment_name regroup
      ∙ ground (
        arith,
        before_last_dash-append (name <> ("-" <> hash)) suffix g,
        before_last_dash-append name hash h,
      )),
  ground (arith, before_last_dash-append hash suffix g, before_last_dash-none hash h),
  ground (arith, before_last_dash-none suffix g),
)
