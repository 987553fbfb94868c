-- ===== src/Cluster/Fpga.antt =====
-- N3000/controllers/n3000cluster_controller.go: `N3000ClusterReconciler`. `ns` is the value of
-- N3000_NAMESPACE.
pub mod Laws
use openshift_operator.Base.{
  ◌||◌, not, String, ◌<>◌, List, [], ◌==◌, some, is_not_found, Error, Exec, pure, handle, ignoring,
  ◌>>=◌, Reconciled, done, failed, if◌then◌else◌,
}
use openshift_operator.Api.{Key, Object, ClusterStatus, SyncStatus, ignored_sync, succeeded_sync}
use openshift_operator.Api.Fpga.{N3000ClusterNode, N3000ClusterSpec, N3000NodeSpec, N3000NodeStatus}
use openshift_operator.Cluster.{Client}
use openshift_operator.Cluster.Plan.{plan}
use openshift_operator.Cluster.Sync.{remove_old, update_all}

abbrev pub FpgaClient : Type 1
FpgaClient = Client N3000ClusterSpec N3000NodeSpec N3000NodeStatus

abbrev pub N3000Cluster : Type 0
N3000Cluster = Object N3000ClusterSpec ClusterStatus

abbrev pub N3000Node : Type 0
N3000Node = Object N3000NodeSpec N3000NodeStatus

abbrev pub default_n3000_config_name : String
default_n3000_config_name = "n3000"

abbrev pub ignored_message : String → String
ignored_message ns =
    "Only N3000Cluster with name '"
    <> (default_n3000_config_name <> ("' and namespace '" <> (ns <> "' are handled")))

-- The spec that the entry for a node becomes.
unfoldable pub node_spec : N3000ClusterSpec → N3000ClusterNode → N3000NodeSpec
node_spec c res = record {
  fpga = res.fpga;
  fortville = res.fortville;
  dry_run = c.dry_run;
  drain_skip = c.drain_skip;
}

-- `ctrl.Result{RequeueAfter: time.Second * 5}, err`
abbrev pub retry_later : Error → Reconciled
retry_later e = record { requeue_after = 5; error = some e }

module _ (C : FpgaClient) (ns : String) where
  unfoldable pub split_cluster_into_nodes : N3000ClusterSpec → Exec C.State (List N3000Node)
  split_cluster_into_nodes c = C.list_nodes >>= λ nodes. pure (
      plan (λ (res : N3000ClusterNode). res.node_name) (node_spec c) ns C.zero_status nodes c.nodes)

  unfoldable pub update_status :
      N3000Cluster → SyncStatus → String → Reconciled → C.State → Reconciled × C.State
  update_status c status reason r =
      ignoring
        (C.update_cluster_status
          (record c { status = record { sync_status = status; last_sync_error = reason } }))
        (λ s. (r, s))

  -- `Reconcile` from the point where the request is known to be the expected one.
  unfoldable pub deploy : N3000Cluster → C.State → Reconciled × C.State
  deploy c =
      handle (split_cluster_into_nodes c.spec)
        (λ n3000nodes.
          handle (remove_old C n3000nodes)
            (λ _.
              handle (update_all C n3000nodes) (λ _. update_status c succeeded_sync "" done)
                (λ e s. (failed e, s)))
            (λ e s. (retry_later e, s)))
        (λ e s. (retry_later e, s))

  -- `Reconcile` from the point where the cluster config has been read.
  unfoldable pub reconcile_cluster_config : Key → N3000Cluster → C.State → Reconciled × C.State
  reconcile_cluster_config req c =
      if not (req.namespace == ns) || not (req.name == default_n3000_config_name)
      then update_status c ignored_sync (ignored_message ns) done
      else deploy c

  unfoldable pub reconcile : Key → C.State → Reconciled × C.State
  reconcile req =
      handle (C.get_cluster req) (reconcile_cluster_config req)
        (λ e s. if is_not_found e then (done, s) else (failed e, s))
