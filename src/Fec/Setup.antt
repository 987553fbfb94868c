-- ===== src/Fec/Setup.antt =====
-- sriov-fec/pkg/daemon/daemon.go and kernel_management.go: how the reconciler is made, and the filter of
-- its events. The configuration, the os-release file and the reconciler's own fields are parameters.
use openshift_operator.Base.{
  Bool, true, false, String, to_lower, eqb, Exec, pure, handle, ◌>>=◌, if◌then◌else◌,
}
use openshift_operator.Cluster.Sriov.{NodeConfigObject}
use openshift_operator.Fec.Inventory.{AcceleratorDiscoveryConfig}
use openshift_operator.Fec.Kernel.{Setter, create_kernel_controller}
use openshift_operator.Labeler.Config.{ConfigFile, load_discovery_config}

-- The filter of `SetupWithManager` for changed resources; the one for new resources lets each pass.
unfoldable pub update_func : NodeConfigObject → NodeConfigObject → Bool
update_func old new = if eqb old.generation new.generation then false else true

abbrev pub config_path : String
config_path = "/sriov_config/config/accelerators.json"

module _ (F : ConfigFile) (os_release : Exec F.State (String × String)) where
  -- `createKernelController`, from the keys ID and ID_LIKE of the os-release file; a file that cannot
  -- be read is as an empty one.
  unfoldable pub new_kernel_controller : Exec F.State Setter
  new_kernel_controller =
      handle os_release
        (λ (keys : String × String).
          pure (create_kernel_controller (to_lower keys.0) (to_lower keys.1)))
        (λ e. pure (create_kernel_controller "" ""))

  -- `NewNodeConfigReconciler`, as what it reads: the configuration of the supported accelerators and
  -- how the kernel parameters are set.
  unfoldable pub new_node_config_reconciler : Exec F.State (AcceleratorDiscoveryConfig × Setter)
  new_node_config_reconciler = load_discovery_config F config_path >>= λ cfg.
      new_kernel_controller >>= λ setter. pure (cfg, setter)
