-- ===== src/Cluster.antt =====
-- The two cluster controllers (N3000/controllers, sriov-fec/controllers): each turns one cluster
-- resource into a resource for each node. The Kubernetes API, of which the code uses the client of
-- controller-runtime, is a parameter: `Client` has the calls that the controllers make, over an
-- unknown state, and each call may fail.
pub mod Sync
pub mod Plan
pub mod Memory
pub mod Sriov
pub mod Fpga
mod Tests
use openshift_operator.Base.{
  ◌≡◌, ◌≢◌, ◌↔◌, Bool, true, false, String, List, [], ◌∷◌, Option, none, some, Error, is_not_found,
  ok, err, Exec, if◌then◌else◌, ◌||◌,
}
use openshift_operator.Api.{Key, key_eq, Object, ClusterStatus}

-- `CSpec` is the spec of the cluster resource, `NSpec` and `NStatus` those of a node resource.
pub record Client (CSpec NSpec NStatus : Type 0) : Type 1 where
  pub State : Type 0
  -- Get and Status().Update of the cluster resource
  pub get_cluster : Key → Exec State (Object CSpec ClusterStatus)
  pub update_cluster_status : Object CSpec ClusterStatus → Exec State (Unit {0})
  -- List of the nodes that carry the label `fpga.intel.com/intel-accelerator-present`
  pub list_nodes : Exec State (List String)
  -- Get, List, Create, Update and Delete of the node resources
  pub get : Key → Exec State (Object NSpec NStatus)
  pub list : Exec State (List (Object NSpec NStatus))
  pub create : Object NSpec NStatus → Exec State (Unit {0})
  pub update : Object NSpec NStatus → Exec State (Unit {0})
  pub delete : Object NSpec NStatus → Exec State (Unit {0})
  -- `Status` of a new object
  pub zero_status : NStatus

module _ {NSpec NStatus : Type 0} where
  unfoldable pub has_key : Key → List (Object NSpec NStatus) → Bool
  has_key k [] = false
  has_key k (o ∷ os) = key_eq o.key k || has_key k os

-- What the controllers rely on: a read shows the objects that are there and changes none, and a
-- write that returns no error has changed the spec of its object and of no other. A write that
-- fails may have changed anything.
pub record IsLawful {CSpec NSpec NStatus : Type 0} (C : Client CSpec NSpec NStatus) : Type 0 where
  pub spec_at : C.State → Key → Option NSpec
  pub get_ok :
      (k : Key) (s : C.State) (o : Object NSpec NStatus)
      → (C.get k s).0 ≡ ok o
      → (spec_at s k ≡ some o.spec) × (o.key ≡ k)
  pub get_keeps : (k : Key) (s : C.State) (j : Key) → spec_at (C.get k s).1 j ≡ spec_at s j
  pub list_ok :
      (s : C.State) (os : List (Object NSpec NStatus)) (k : Key)
      → (C.list s).0 ≡ ok os
      → (has_key k os ≡ true) ↔ (spec_at s k ≢ none)
  pub list_missing :
      (s : C.State) (e : Error) (k : Key)
      → (C.list s).0 ≡ err e
      → is_not_found e ≡ true
      → spec_at s k ≡ none
  pub list_keeps : (s : C.State) (j : Key) → spec_at (C.list s).1 j ≡ spec_at s j
  pub create_ok :
      (o : Object NSpec NStatus) (s : C.State) (j : Key)
      → (C.create o s).0 ≡ ok tt
      → spec_at (C.create o s).1 j ≡ (if key_eq o.key j then some o.spec else spec_at s j)
  pub update_ok :
      (o : Object NSpec NStatus) (s : C.State) (j : Key)
      → (C.update o s).0 ≡ ok tt
      → spec_at (C.update o s).1 j ≡ (if key_eq o.key j then some o.spec else spec_at s j)
  pub delete_ok :
      (o : Object NSpec NStatus) (s : C.State) (j : Key)
      → (C.delete o s).0 ≡ ok tt
      → spec_at (C.delete o s).1 j ≡ (if key_eq o.key j then none else spec_at s j)
  pub cluster_keeps : (k j : Key) (s : C.State) → spec_at (C.get_cluster k s).1 j ≡ spec_at s j
  pub nodes_keeps : (j : Key) (s : C.State) → spec_at (C.list_nodes s).1 j ≡ spec_at s j
  pub status_keeps :
      (c : Object CSpec ClusterStatus) (j : Key) (s : C.State)
      → spec_at (C.update_cluster_status c s).1 j ≡ spec_at s j
