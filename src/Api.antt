-- ===== src/Api.antt =====
-- The custom resources of the two operators (N3000/api/v1, sriov-fec/api/v1): what all of them
-- have, and the types of each operator in a child. An object is named by its namespace and name;
-- of its metadata the generation is kept too. Integers that the CRD schemas bound below by 0 are
-- natural numbers; a slice or a pointer that the code compares with nil is an option.
pub mod Fpga
pub mod Sriov
use openshift_operator.Base.{
  ℕ, Option, none, some, [], ◌∷◌, if◌then◌else◌, ◌≡◌, ◌↔◌, Bool, true, ◌&&◌, String, List, arith,
  ◌==◌, eq_iff,
}

-- `types.NamespacedName`
pub record Key : Type 0 where
  pub namespace : String
  pub name : String

unfoldable pub key_eq : Key → Key → Bool
key_eq a b = a.namespace == b.namespace && a.name == b.name

pub key_eq_iff : (a b : Key) → (key_eq a b ≡ true) ↔ (a ≡ b)
unfolding key_eq
key_eq_iff a b = ground (arith, eq_iff a.namespace b.namespace, eq_iff a.name b.name)

pub key_eq_of_fields : (a b : Key) → a.namespace ≡ b.namespace → a.name ≡ b.name → a ≡ b
key_eq_of_fields a b h k = cc

-- The `SyncStatus` values of a cluster resource.
pub data SyncStatus : Type 0 where
  in_progress_sync succeeded_sync failed_sync ignored_sync : SyncStatus

-- `N3000ClusterStatus` and `SriovFecClusterConfigStatus`; the status of a resource that was never
-- handled is empty.
pub record ClusterStatus : Type 0 where
  pub sync_status : SyncStatus
  pub last_sync_error : String

-- A custom resource: `ObjectMeta`, `Spec` and `Status`.
pub record Object (Spec Status : Type 0) : Type 0 where
  pub key : Key
  pub generation : ℕ
  pub spec : Spec
  pub status : Status

-- `metav1.ConditionStatus`
pub data ConditionStatus : Type 0 where
  condition_true condition_false condition_unknown : ConditionStatus

-- `metav1.Condition`, less its transition time.
pub record Condition : Type 0 where
  pub type : String
  pub status : ConditionStatus
  pub reason : String
  pub message : String
  pub observed_generation : ℕ

-- `meta.FindStatusCondition`
unfoldable pub find_status_condition : List Condition → String → Option Condition
find_status_condition [] type = none
find_status_condition (c ∷ cs) type =
    if c.type == type then some c else find_status_condition cs type
