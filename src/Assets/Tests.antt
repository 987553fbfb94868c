-- ===== src/Assets/Tests.antt =====
-- The theorem about a deployment, at the cluster in memory.
use openshift_operator.Base.{ap, ◌≢◌, refl, arith, String, List, [], ◌∷◌, All, eq_iff, none}
use openshift_operator.Assets.{
  Gvk, Asset, deploy, after_written, wait_until_ready, wait_for, is_ready, create_or_update,
  create_or_update_object, after_object, set_owner, write_object, update_changed,
}
use openshift_operator.Assets.Laws.{id_of, IsDeployed, AreDistinct}
use openshift_operator.Assets.Deploying.{all_objects, deploy-IsDeployed}
use openshift_operator.Assets.Memory.{
  Cluster, object_of, manager, manager_cluster, write, read, id_eq, wait_once,
}
use openshift_operator.Api.{key_eq, Key}

-- A cluster that has the first object in another form, and not the second.
abbrev before : Cluster
before = (write (record (object_of "DaemonSet") { body = "old" }) (λ i. none)).1

kinds_differ : id_of (object_of "ConfigMap") ≢ id_of (object_of "DaemonSet")
kinds_differ h =
    absurd (ground (arith, eq_iff "ConfigMap" "DaemonSet", ap (λ (i : Gvk × Key). i.0.kind) h))

-- Two assets, the first of which is waited for.
abbrev assets : List (Asset String)
assets =
    record {
      path = "100.yaml";
      retries = 30;
      substitutions = [];
      objects = object_of "DaemonSet" ∷ [];
    }
    ∷ record {
      path = "200.yaml";
      retries = 0;
      substitutions = [];
      objects = object_of "ConfigMap" ∷ [];
    }
    ∷ []

deploy-IsDeployed_example :
    All (IsDeployed manager manager_cluster (deploy manager assets before).1.1) (all_objects assets)
unfolding AreDistinct all_objects deploy after_written wait_until_ready wait_for is_ready
    create_or_update create_or_update_object after_object set_owner write_object update_changed read
    write id_eq key_eq wait_once
deploy-IsDeployed_example =
    deploy-IsDeployed manager manager_cluster assets before ((kinds_differ, tt), (tt, tt)) refl
