-- ===== src/Programs/Daemons/Tests.antt =====
-- The daemons on a node in memory, with an API server that has no resource yet.
use openshift_operator.Base.{
  ◌≡◌, refl, arith, true, false, [], ◌∷◌, ◌==◌, eq_iff, contains, to_lower, is_some, Option, none,
  some, not_found, Result, ok, err, pure, if◌then◌else◌,
}
use openshift_operator.Api.{Key}
use openshift_operator.Cluster.Fpga.{N3000Node}
use openshift_operator.Cluster.Sriov.{NodeConfigObject}
use openshift_operator.Drain.Memory.{libraries}
use openshift_operator.N3000.Memory.{Store, empty_store, write_to, memory}
use openshift_operator.N3000.Reconcile.{Reconciler, create_empty_n3000_node_if_needed}
use openshift_operator.Fec.Memory.{Sysfs, machine}
use openshift_operator.Fec.Inventory.{AcceleratorDiscoveryConfig}
use openshift_operator.Fec.Kernel.{grubby, unsupported, create_kernel_controller}
use openshift_operator.Fec.Reconcile.{Daemon, create_empty_node_config_if_needed}
use openshift_operator.Fec.Setup.{config_path, new_kernel_controller, new_node_config_reconciler}
use openshift_operator.Labeler.Config.{wrapping, load_discovery_config}
use openshift_operator.Programs.{or_exit, finish}
use openshift_operator.Programs.Daemons.{
  Libraries, need, n3000_reconciler, prepare_n3000_daemon, n3000_daemon_main, SriovFecDaemon,
  discovery_file, prepare_sriov_fec_daemon, sriov_fec_daemon_main,
}
use openshift_operator.Programs.Daemons.Laws.{HasN3000Nodes, prepare_n3000_daemon_ok}
use openshift_operator.Programs.Daemons.Fec.{HasNodeConfigs, prepare_sriov_fec_daemon_ok}

abbrev node : Sysfs
node = record {
  bound = none;
  override = "";
  vfs = 0;
  kernel_args = "";
  saved = [];
  files = "/host/etc/os-release" ∷ [];
  cordoned = false;
  drained = false;
}

abbrev quiet : (S : Type 0) → Libraries S
quiet S = record {
  getenv = λ name. if name == "NODENAME" then "node1" else "vran";
  get_config = pure tt;
  new_clientset = pure tt;
  new_client = pure tt;
  new_manager = λ namespace. pure tt;
  setup_with_manager = pure tt;
  start = pure tt;
}

-- The API server of the N3000 daemon has a text under the name of each resource.
unfoldable find_n3000_node : Key → Store → Option N3000Node
find_n3000_node k s =
    if s.files k.name == ""
    then none
    else some (record {
      key = k;
      generation = 0;
      spec = record { fpga = none; fortville = none; dry_run = false; drain_skip = false };
      status = record { conditions = []; fpga = []; fortville = [] };
    })

abbrev n3000 : Reconciler
n3000 = record {
  node = memory;
  namespace = "";
  node_name = "";
  get = λ k s. (elim (find_n3000_node k s) [ none ↦ err (not_found "node") | some n ↦ ok n ], s);
  create = λ n s. (ok tt, write_to n.key.name "n3000node" s);
  status_update = λ n. pure tt;
  libraries = libraries Store;
}

entry_found :
    {A : Type 0} (o : Option A) (n : A)
    → Path (Result A) (elim o [ none ↦ err (not_found "node") | some m ↦ ok m ]) (ok n)
    → is_some o ≡ true
entry_found none n h = absurd (ground (arith, h))
entry_found (some m) n h = refl

n3000_node_created :
    (n : N3000Node) (s : Store)
    → is_some (find_n3000_node n.key (write_to n.key.name "n3000node" s)) ≡ true
unfolding find_n3000_node
n3000_node_created n s =
    let same : (n.key.name == n.key.name) ≡ true = ground (arith, eq_iff n.key.name n.key.name) in
    rw same refl

abbrev n3000_nodes : HasN3000Nodes (n3000_reconciler n3000 (quiet Store))
n3000_nodes = record {
  stored = find_n3000_node;
  get_found = λ k s n h. entry_found (find_n3000_node k s) n h;
  create_ok = λ n s h. n3000_node_created n s;
}

prepare_n3000_example :
    (("node1" == "") ≡ false)
    × (("vran" == "") ≡ false)
    × (is_some (
          find_n3000_node
            (record { namespace = "vran"; name = "node1" })
            (prepare_n3000_daemon n3000 (quiet Store) empty_store).1)
        ≡ true)
    × (n3000_daemon_main n3000 (quiet Store) empty_store
        ≡ or_exit
            (quiet Store).start
            (λ _. finish)
            (prepare_n3000_daemon n3000 (quiet Store) empty_store).1)
unfolding prepare_n3000_daemon need create_empty_n3000_node_if_needed find_n3000_node
prepare_n3000_example = prepare_n3000_daemon_ok n3000 (quiet Store) n3000_nodes empty_store refl

-- The API server of the daemon of the accelerators has a file with the name of each resource.
unfoldable find_node_config : Key → Sysfs → Option NodeConfigObject
find_node_config k s =
    if contains s.files k.name
    then some (record {
      key = k;
      generation = 0;
      spec = record { physical_functions = []; drain_skip = false };
      status = record { conditions = []; inventory = record { sriov_accelerators = [] } };
    })
    else none

abbrev accelerators : AcceleratorDiscoveryConfig
accelerators = record {
  vendor_id = [];
  class = "12";
  sub_class = "00";
  devices = [];
  node_label = "";
}

abbrev daemon : Daemon
daemon = record {
  machine = machine;
  namespace = "";
  node_name = "";
  supported_accelerators = record accelerators { class = "" };
  set_kernel_args = unsupported;
  get = λ k s. (elim (find_node_config k s) [ none ↦ err (not_found "node") | some n ↦ ok n ], s);
  create = λ n s. (ok tt, record s { files = n.key.name ∷ s.files });
  update_status = λ n s. (if contains s.files n.key.name then ok tt else err (not_found "node"), s);
  list_plugin_pods = λ namespace. pure [];
  delete_pod = λ k. pure tt;
  libraries = libraries Sysfs;
}

status_updated :
    (n : NodeConfigObject) (s : Sysfs)
    → (daemon.update_status n s).0 ≡ ok tt
    → is_some (find_node_config n.key s) ≡ true
unfolding find_node_config
status_updated n s h = ground (arith, h)

abbrev node_configs : HasNodeConfigs daemon
node_configs = record {
  stored = find_node_config;
  get_found = λ k s n h. entry_found (find_node_config k s) n h;
  update_ok = status_updated;
}

abbrev program : SriovFecDaemon
program = record {
  daemon = daemon;
  libraries = quiet Sysfs;
  open_file = λ path. pure tt;
  size = pure 2;
  read = λ size. pure ("{}", 2);
  unmarshal = λ text. ok accelerators;
  os_release = pure ("RHEL", "Fedora");
}

prepare_sriov_fec_example :
    (("node1" == "") ≡ false)
    × (("vran" == "") ≡ false)
    × (t : Sysfs) × ((load_discovery_config (discovery_file program) config_path t).0
        ≡ ok accelerators)
    × (is_some (
          find_node_config
            (record { namespace = "vran"; name = "node1" })
            (prepare_sriov_fec_daemon program node).1)
        ≡ true)
    × (sriov_fec_daemon_main program node
        ≡ or_exit (quiet Sysfs).start (λ _. finish) (prepare_sriov_fec_daemon program node).1)
unfolding prepare_sriov_fec_daemon need new_node_config_reconciler new_kernel_controller
    create_kernel_controller load_discovery_config wrapping create_empty_node_config_if_needed
    find_node_config contains to_lower
prepare_sriov_fec_example =
    prepare_sriov_fec_daemon_ok program node_configs node (accelerators, grubby) refl
