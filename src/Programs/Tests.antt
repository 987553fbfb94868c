-- ===== src/Programs/Tests.antt =====
-- The N3000 operator on a cluster in memory.
use openshift_operator.Base.{
  ap, ◌≡◌, ◌≢◌, refl, arith, Bool, false, split, String, All, eq_iff, none, some, ◌==◌, ok, pure,
  if◌then◌else◌,
}
use openshift_operator.Api.{Key, key_eq}
use openshift_operator.Assets.{
  Gvk, deploy, after_written, wait_until_ready, wait_for, create_or_update, create_or_update_object,
  after_object, set_owner, write_object, update_changed,
}
use openshift_operator.Assets.Templates.{
  add_kernel, add_environ, build_template_vars, decode_all, render, load_rendered, load_from_file,
  load_asset, after_loaded, load_all, load, deploy_loaded, load_and_deploy,
}
use openshift_operator.Assets.Laws.{id_of, IsCluster, IsDeployed, AreDistinct}
use openshift_operator.Assets.Deploying.{all_objects}
use openshift_operator.Assets.Loading.{loaded}
use openshift_operator.Assets.Memory.{
  Cluster, object_of, manager, manager_cluster, write, read, id_eq,
}
use openshift_operator.Programs.{or_exit, finish}
use openshift_operator.Programs.Names.{before_last_dash, operator_deployment_name}
use openshift_operator.Programs.Names.Laws.{has_dash, operator_deployment_name_lem}
use openshift_operator.Programs.Operators.{
  Platform, n3000_operator, asset_of, owned, deploy_round, deploy_rounds, set_up, prepare,
  operator_main,
}
use openshift_operator.Programs.Operators.Laws.{loaded_objects, owner_key, prepare-IsDeployed}

deployment_name_example :
    (operator_deployment_name "n3000-controller-manager-5f9b-x2x" ≡ some "n3000-controller-manager")
    × (operator_deployment_name "5f9b-x2x" ≡ none)
    × (operator_deployment_name "x2x" ≡ none)
unfolding has_dash
deployment_name_example =
    operator_deployment_name_lem "n3000-controller-manager" "5f9b" "x2x" refl refl

-- The deployment is known by its namespace.
abbrev platform : Platform
platform = record {
  manager = manager;
  Deployment = String;
  getenv = λ name. if name == "NAME" then "n3000-controller-manager-5f9b-x2x" else "vran";
  get_config = pure tt;
  new_manager = λ id. pure tt;
  setup_with_manager = pure tt;
  add_healthz_check = λ name. pure tt;
  add_readyz_check = λ name. pure tt;
  new_client = pure tt;
  get_deployment = λ key. pure key.namespace;
  namespace_of = λ owner. owner;
  set_controller_reference = λ owner o. ok o;
  start = pure tt;
}

abbrev owned_cluster : (owner : String) → IsCluster (owned platform n3000_operator owner)
owned_cluster owner = record {
  stored = manager_cluster.stored;
  get_found = manager_cluster.get_found;
  get_keeps = manager_cluster.get_keeps;
  create_ok = manager_cluster.create_ok;
  update_ok = manager_cluster.update_ok;
  forget_version = manager_cluster.forget_version;
  create_keeps = manager_cluster.create_keeps;
  update_keeps = manager_cluster.update_keeps;
  ready_keeps = manager_cluster.ready_keeps;
  backoff_keeps = manager_cluster.backoff_keeps;
  kernels_keeps = manager_cluster.kernels_keeps;
  dir_keeps = manager_cluster.dir_keeps;
  file_keeps = manager_cluster.file_keeps;
  owner_keeps = manager_cluster.owner_keeps;
}

kinds_apart : (a b : String) → Path Bool (a == b) false → id_of (object_of a) ≢ id_of (object_of b)
kinds_apart a b h e = absurd (ground (arith, h, eq_iff a b, ap (λ (i : Gvk × Key). i.0.kind) e))

abbrev empty : Cluster
empty = λ i. none

abbrev labeler : String
labeler = "assets/100-labeler.yaml"

abbrev driver : String
driver = "assets/200-driver-container.yaml"

abbrev monitoring : String
monitoring = "assets/300-monitoring.yaml"

abbrev daemon : String
daemon = "assets/400-daemon.yaml"

loaded_distinct :
    (owner : String)
    → AreDistinct
        (owned platform n3000_operator owner)
        (owned_cluster owner)
        (loaded_objects platform n3000_operator owner n3000_operator.rounds empty)
unfolding AreDistinct loaded_objects loaded load build_template_vars add_environ add_kernel load_all
    load_asset load_from_file load_rendered render decode_all after_loaded all_objects asset_of
    deploy_round deploy_rounds load_and_deploy deploy_loaded deploy after_written wait_until_ready
    wait_for create_or_update create_or_update_object after_object set_owner write_object
    update_changed write read id_eq key_eq split
loaded_distinct owner =
    let k = kinds_apart in
    (
      (k driver labeler refl, (k monitoring labeler refl, (k daemon labeler refl, tt))),
      (
        (k monitoring driver refl, (k daemon driver refl, tt)),
        ((k daemon monitoring refl, tt), (tt, tt)),
      ),
    )

prepared_example :
    (owner : String) × (ok "vran" ≡ ok owner)
    × All
        (IsDeployed
          (owned platform n3000_operator owner)
          (owned_cluster owner)
          (prepare platform n3000_operator "n3000-controller-manager" empty).1)
        (loaded_objects platform n3000_operator owner n3000_operator.rounds empty)
    × (operator_main platform n3000_operator empty
        ≡ or_exit platform.start
            (λ _. finish)
            (prepare platform n3000_operator "n3000-controller-manager" empty).1)
unfolding set_up operator_deployment_name before_last_dash owner_key prepare loaded_objects loaded
    load build_template_vars add_environ add_kernel load_all load_asset load_from_file load_rendered
    render decode_all after_loaded all_objects asset_of deploy_round deploy_rounds load_and_deploy
    deploy_loaded deploy after_written wait_until_ready wait_for create_or_update
    create_or_update_object after_object set_owner write_object update_changed write read id_eq
    key_eq split
prepared_example =
    prepare-IsDeployed platform n3000_operator owned_cluster "n3000-controller-manager" empty refl
      loaded_distinct refl
