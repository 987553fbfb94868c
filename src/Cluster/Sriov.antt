-- ===== src/Cluster/Sriov.antt =====
-- sriov-fec/controllers/sriovfecclusterconfig_controller.go: `SriovFecClusterConfigReconciler`.
-- `ns` is the value of SRIOV_FEC_NAMESPACE.
pub mod Laws
use openshift_operator.Base.{
  ◌||◌, not, String, ◌<>◌, List, ◌==◌, if◌then◌else◌, is_not_found, handle, ignoring, Reconciled,
  done, failed,
}
use openshift_operator.Api.{
  Key, Object, ClusterStatus, SyncStatus, ignored_sync, failed_sync, succeeded_sync,
}
use openshift_operator.Api.Sriov.{
  NodeConfig, SriovFecClusterConfigSpec, SriovFecNodeConfigSpec, SriovFecNodeConfigStatus,
}
use openshift_operator.Cluster.{Client}
use openshift_operator.Cluster.Plan.{plan}
use openshift_operator.Cluster.Sync.{sync_node_configs}

abbrev pub SriovClient : Type 1
SriovClient = Client SriovFecClusterConfigSpec SriovFecNodeConfigSpec SriovFecNodeConfigStatus

abbrev pub ClusterConfig : Type 0
ClusterConfig = Object SriovFecClusterConfigSpec ClusterStatus

abbrev pub NodeConfigObject : Type 0
NodeConfigObject = Object SriovFecNodeConfigSpec SriovFecNodeConfigStatus

abbrev pub default_cluster_config_name : String
default_cluster_config_name = "config"

abbrev pub ignored_message : String → String
ignored_message ns =
    "Only SriovFecClusterConfig with name '"
    <> (default_cluster_config_name <> ("' and namespace '" <> (ns <> "' are handled")))

-- The spec that the entry for a node becomes.
unfoldable pub node_config_spec : SriovFecClusterConfigSpec → NodeConfig → SriovFecNodeConfigSpec
node_config_spec c n = record {
  physical_functions = n.physical_functions;
  drain_skip = c.drain_skip;
}

module _ (C : SriovClient) (ns : String) where
  unfoldable pub render_node_configs :
      SriovFecClusterConfigSpec → List String → List NodeConfigObject
  render_node_configs c node_list =
      plan (λ (n : NodeConfig). n.node_name) (node_config_spec c) ns C.zero_status node_list c.nodes

  -- The closure `updateStatus` of `Reconcile`.
  unfoldable pub update_status :
      ClusterConfig → SyncStatus → String → Reconciled → C.State → Reconciled × C.State
  update_status c status reason r =
      ignoring
        (C.update_cluster_status
          (record c { status = record { sync_status = status; last_sync_error = reason } }))
        (λ s. (r, s))

  -- `Reconcile` from the point where the request is known to be the expected one.
  unfoldable pub deploy : ClusterConfig → C.State → Reconciled × C.State
  deploy c =
      handle C.list_nodes
        (λ node_list.
          handle (sync_node_configs C (render_node_configs c.spec node_list))
            (λ _. update_status c succeeded_sync "" done)
            (λ e.
              update_status c failed_sync "failed to create NodeConfigs - check logs" (failed e)))
        (λ e.
          update_status c failed_sync
            "nfd error: failed to obtain nodes with Intel accelerator - check logs" (failed e))

  -- `Reconcile` from the point where the cluster config has been read.
  unfoldable pub reconcile_cluster_config : Key → ClusterConfig → C.State → Reconciled × C.State
  reconcile_cluster_config req c =
      if not (req.namespace == ns) || not (req.name == default_cluster_config_name)
      then update_status c ignored_sync (ignored_message ns) done
      else deploy c

  unfoldable pub reconcile : Key → C.State → Reconciled × C.State
  reconcile req =
      handle (C.get_cluster req) (reconcile_cluster_config req)
        (λ e s. if is_not_found e then (done, s) else (failed e, s))
