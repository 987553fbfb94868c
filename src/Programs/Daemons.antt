-- ===== src/Programs/Daemons.antt =====
-- N3000/cmd/daemon/main.go and sriov-fec/cmd/daemon/main.go: `main` of the two daemons; labeler/main.go:
-- `main`. The manager, the clients and the environment are parameters. An environment variable that is
-- empty ends a daemon as an error does.
pub mod Laws
pub mod Fec
mod Tests
use openshift_operator.Base.{
  ℕ, Bool, String, ◌==◌, ◌<>◌, Result, ok, failure, Exec, pure, raise, handle, ◌>>=◌, ◌>>◌,
  if◌then◌else◌,
}
use openshift_operator.Api.{Key}
use openshift_operator.Cluster.Fpga.{N3000Node}
use openshift_operator.Cluster.Sriov.{NodeConfigObject}
use openshift_operator.Fec.Inventory.{AcceleratorDiscoveryConfig}
use openshift_operator.Fec.Kernel.{Setter}
use openshift_operator.Fec.Reconcile.{Daemon, create_empty_node_config_if_needed}
use openshift_operator.Fec.Setup.{new_node_config_reconciler}
use openshift_operator.Labeler.{World, accelerator_discovery}
use openshift_operator.Labeler.Config.{ConfigFile}
use openshift_operator.N3000.Reconcile.{Reconciler, create_empty_n3000_node_if_needed}
use openshift_operator.Programs.{Ended, exited, or_exit, finish}

-- What both daemons use of the Kubernetes libraries: GetConfigOrDie, the clientset, the direct client,
-- NewManager for a namespace, SetupWithManager and Start.
pub record Libraries (State : Type 0) : Type 0 where
  pub getenv : String → String
  pub get_config : Exec State (Unit {0})
  pub new_clientset : Exec State (Unit {0})
  pub new_client : Exec State (Unit {0})
  pub new_manager : String → Exec State (Unit {0})
  pub setup_with_manager : Exec State (Unit {0})
  pub start : Exec State (Unit {0})

-- The test of a variable that must not be empty.
unfoldable pub need : {S : Type 0} → String → String → Exec S (Unit {0})
need name value =
    if value == "" then raise (failure (name <> " environment variable is empty")) else pure tt

-- The daemon of the N3000 cards: its reconciler, but for the names, with Get and Create of the direct
-- client.
module _ (R : Reconciler) (L : Libraries R.node.State) where
  open R use {node}

  -- `NewN3000NodeReconciler`
  abbrev pub n3000_reconciler : Reconciler
  n3000_reconciler = record R {
    node_name = L.getenv "NODENAME";
    namespace = L.getenv "N3000_NAMESPACE";
  }

  -- What `main` does before it starts the manager.
  unfoldable pub prepare_n3000_daemon : Exec node.State (Unit {0})
  prepare_n3000_daemon =
      need "NODENAME" (L.getenv "NODENAME")
      >> need "N3000_NAMESPACE" (L.getenv "N3000_NAMESPACE")
      >> L.get_config
      >> L.new_clientset
      >> L.new_client
      >> L.new_manager (L.getenv "N3000_NAMESPACE")
      >> L.setup_with_manager
      >> create_empty_n3000_node_if_needed n3000_reconciler

  unfoldable pub n3000_daemon_main : node.State → Ended × node.State
  n3000_daemon_main = or_exit prepare_n3000_daemon (λ _. or_exit L.start (λ _. finish))

-- The daemon of the accelerators, with the file of its configuration and the os-release file.
pub record SriovFecDaemon : Type 1 where
  pub daemon : Daemon
  pub libraries : Libraries daemon.machine.State
  pub open_file : String → Exec daemon.machine.State (Unit {0})
  pub size : Exec daemon.machine.State ℕ
  pub read : ℕ → Exec daemon.machine.State (String × ℕ)
  pub unmarshal : String → Result AcceleratorDiscoveryConfig
  pub os_release : Exec daemon.machine.State (String × String)

module _ (P : SriovFecDaemon) where
  open P use {daemon, libraries}

  abbrev pub discovery_file : ConfigFile
  discovery_file = record {
    State = daemon.machine.State;
    open_file = P.open_file;
    size = P.size;
    read = P.read;
    unmarshal = P.unmarshal;
  }

  -- The reconciler that is made of what was read.
  abbrev pub node_config_reconciler : AcceleratorDiscoveryConfig × Setter → Daemon
  node_config_reconciler (cfg, setter) = record daemon {
    node_name = libraries.getenv "NODENAME";
    namespace = libraries.getenv "SRIOV_FEC_NAMESPACE";
    supported_accelerators = cfg;
    set_kernel_args = setter;
  }

  unfoldable pub prepare_sriov_fec_daemon :
      Exec daemon.machine.State (AcceleratorDiscoveryConfig × Setter)
  prepare_sriov_fec_daemon =
      need "NODENAME" (libraries.getenv "NODENAME")
      >> need "SRIOV_FEC_NAMESPACE" (libraries.getenv "SRIOV_FEC_NAMESPACE")
      >> libraries.get_config
      >> libraries.new_client
      >> libraries.new_clientset
      >> libraries.new_manager (libraries.getenv "SRIOV_FEC_NAMESPACE")
      >> new_node_config_reconciler discovery_file P.os_release
      >>= λ made.
          libraries.setup_with_manager
          >> create_empty_node_config_if_needed (node_config_reconciler made)
          >> pure made

  unfoldable pub sriov_fec_daemon_main : daemon.machine.State → Ended × daemon.machine.State
  sriov_fec_daemon_main =
      or_exit prepare_sriov_fec_daemon (λ _. or_exit libraries.start (λ _. finish))

-- `main` of the labeler, which ends with os.Exit(0).
unfoldable pub labeler_main : (W : World) → String → W.State → Ended × W.State
labeler_main W config_path = or_exit (accelerator_discovery W config_path) (λ _ s. (exited 0, s))
