-- ===== src/Cluster/Plan.antt =====
-- From the entries of a cluster resource to the node resources that are wanted: the loops of
-- `renderNodeConfigs` and `splitClusterIntoNodes`, which differ only in the types of the entries.
use openshift_operator.Base.{
  ◌≡◌, Bool, true, false, ◌&&◌, String, List, [], ◌∷◌, ◌==◌, eq_iff, Option, none, some, or_else,
  contains, if◌then◌else◌, arith,
}
use openshift_operator.Api.{Key, key_eq, Object}
use openshift_operator.Cluster.Sync.Laws.{names, last_spec}

module _ {E NSpec : Type 0} (name_of : E → String) (spec_of : E → NSpec) where
  module _ {NStatus : Type 0} (namespace : String) (zero_status : NStatus) where
    abbrev pub node_object : E → Object NSpec NStatus
    node_object e = record {
      key = record { namespace = namespace; name = name_of e };
      generation = 0;
      spec = spec_of e;
      status = zero_status;
    }

    -- An entry for a node with no accelerator is left out.
    unfoldable pub plan : List String → List E → List (Object NSpec NStatus)
    plan nodes [] = []
    plan nodes (e ∷ es) =
        let rest = plan nodes es in
        if contains nodes (name_of e) then node_object e ∷ rest else rest

  -- The spec of the last entry for a node.
  unfoldable pub last_entry : String → List E → Option NSpec
  last_entry n [] = none
  last_entry n (e ∷ es) =
      or_else (last_entry n es) (if name_of e == n then some (spec_of e) else none)

  -- What should stand at a key, given what stood there: the spec of the last entry for the node of
  -- that name, in the operator's namespace. A resource for any node that has no entry, or no
  -- accelerator, is gone, from every namespace.
  unfoldable pub wanted : String → List String → List E → Key → Option NSpec → Option NSpec
  wanted namespace nodes es j old = elim (last_entry j.name es) [
    | none ↦ none
    | some spec ↦
        if contains nodes j.name
        then (if namespace == j.namespace then some spec else old)
        else none
  ]

module _ {E NSpec : Type 0} (name_of : E → String) (spec_of : E → NSpec) where
  pub wanted_idem :
      (ns : String) (nodes : List String) (es : List E) (j : Key) (old : Option NSpec)
      → wanted name_of spec_of ns nodes es j (wanted name_of spec_of ns nodes es j old)
        ≡ wanted name_of spec_of ns nodes es j old
  unfolding wanted
  wanted_idem ns nodes es j old = ground arith

abbrev is_some {ℓ} : {A : Type ℓ} → Option A → Bool
is_some none = false
is_some (some a) = true

module _ {E NSpec NStatus : Type 0} (name_of : E → String) (spec_of : E → NSpec)
    (namespace : String) (zero_status : NStatus) where
  last_spec-plan :
      (nodes : List String) (es : List E) (j : Key)
      → last_spec j (plan name_of spec_of namespace zero_status nodes es) ≡ (
          if contains nodes j.name && namespace == j.namespace
          then last_entry name_of spec_of j.name es
          else none)
  unfolding plan last_entry last_spec key_eq
  last_spec-plan nodes [] j = ground arith
  last_spec-plan nodes (e ∷ es) j =
      ground (arith, last_spec-plan nodes es j, eq_iff (name_of e) j.name)

  contains-plan :
      (nodes : List String) (es : List E) (n : String)
      → contains (names (plan name_of spec_of namespace zero_status nodes es)) n
        ≡ (contains nodes n && is_some (last_entry name_of spec_of n es))
  unfolding plan last_entry contains
  contains-plan nodes [] n = ground arith
  contains-plan nodes (e ∷ es) n = ground (arith, contains-plan nodes es n, eq_iff (name_of e) n)

  -- A synchronisation with the plan leaves what is wanted.
  pub plan-wanted :
      (nodes : List String) (es : List E) (j : Key) (old : Option NSpec)
      → (let cfgs = plan name_of spec_of namespace zero_status nodes es in
          or_else (last_spec j cfgs) (if contains (names cfgs) j.name then old else none))
        ≡ wanted name_of spec_of namespace nodes es j old
  unfolding wanted
  plan-wanted nodes es j old =
      ground (arith, last_spec-plan nodes es j, contains-plan nodes es j.name)
