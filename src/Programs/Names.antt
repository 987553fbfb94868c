-- ===== src/Programs/Names.antt =====
-- N3000/main.go and sriov-fec/main.go: `init`, the name of the operator's deployment from that of its
-- pod.
pub mod Laws
use Prim.Native.Char.{code}
use openshift_operator.Base.{Bool, true, String, Option, none, some, eqb, if◌then◌else◌}

-- `s[:strings.LastIndex(s, "-")]`: without a dash the index is -1, and the slice panics.
unfoldable pub before_last_dash : String → Option String
before_last_dash String.[] = none
before_last_dash (String.◌∷◌ c s) = elim (before_last_dash s) [
  | some t ↦ some (String.◌∷◌ c t)
  | none ↦ if eqb (code c) b'-' then some "" else none
]

-- `operatorDeploymentName`, where there is no panic
unfoldable pub operator_deployment_name : String → Option String
operator_deployment_name n = elim (before_last_dash n) [ none ↦ none | some t ↦ before_last_dash t ]
