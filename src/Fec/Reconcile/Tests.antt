-- ===== src/Fec/Reconcile/Tests.antt =====
-- The daemon of a node in memory, and the theorems at it.
use openshift_operator.Base.{
  ◌≡◌, refl, ◌∙◌, String, List, arith, Bool, true, false, none, [], ◌∷◌, Error, failure, ok, err,
  pure,
}
use openshift_operator.Api.{find_status_condition, Key, Condition, condition_false}
use openshift_operator.Api.Sriov.{SriovAccelerator, NodeInventory}
use openshift_operator.Cluster.Sriov.{NodeConfigObject}
use openshift_operator.Drain.{IsLawful}
use openshift_operator.Drain.Captured.{replied}
use openshift_operator.Drain.Memory.{libraries, host_is_lawful}
use openshift_operator.Fec.Memory.{Sysfs, pf, machine, device}
use openshift_operator.Fec.Inventory.{get_sriov_inventory}
use openshift_operator.Fec.Inventory.Laws.{
  addresses, has_key, supports, supported_addresses, get_sriov_inventory_ok,
}
use openshift_operator.Fec.Tests.{supported, node, pf_config}
use openshift_operator.Fec.Kernel.{grubby}
use openshift_operator.Fec.Reconcile.{Daemon, Locals, host, update_status, resync_period, reconcile}
use openshift_operator.Fec.Reconcile.Settled.{reconcile-update_status}
use openshift_operator.Fec.Reconcile.Errors.{Starts}

abbrev key : Key
key = record { namespace = "vran"; name = "node1" }

-- A resource that skips the drain, or not.
abbrev config : Bool → NodeConfigObject
config skip = record {
  key = key;
  generation = 1;
  spec = record { physical_functions = pf_config ∷ []; drain_skip = skip };
  status = record { conditions = []; inventory = record { sriov_accelerators = [] } };
}

abbrev daemon : Bool → Daemon
daemon skip = record {
  machine = record machine { read_file = λ path s. (err (failure "no such file"), s) };
  namespace = "vran";
  node_name = "node1";
  supported_accelerators = supported;
  set_kernel_args = grubby;
  get = λ k s. (ok (config skip), s);
  create = λ o. pure tt;
  update_status = λ o. pure tt;
  list_plugin_pods = λ namespace. pure [];
  delete_pod = λ k. pure tt;
  libraries = libraries Sysfs;
}

abbrev daemon-IsLawful : IsLawful (host (daemon true))
daemon-IsLawful = host_is_lawful Sysfs Locals

abbrev inventory_read :
    (skip : Bool)
    → (inv : NodeInventory) × (get_sriov_inventory (daemon skip).machine supported node
        ≡ (ok inv, node))
      × (addresses inv.sriov_accelerators
          ≡ supported_addresses (daemon skip).machine supported node (device ∷ []))
inventory_read skip =
    get_sriov_inventory_ok (daemon skip).machine
      (record { devices_keep = λ s. refl; driver_keep = λ a s. refl; vfs_keep = λ a s. refl })
      supported device [] node refl

abbrev starts : (skip : Bool) → Starts (daemon skip) key (config skip) node node
unfolding find_status_condition
starts skip = record {
  namespace_lem = refl;
  name_lem = refl;
  between = node;
  found = refl;
  first = pf_config;
  others = [];
  wanted = refl;
  inventory = (inventory_read skip).0;
  read = (inventory_read skip).1;
  fresh = refl;
}

abbrev no_file : Error
no_file = failure "no such file"

-- The resource of the daemon after its configuration has failed.
abbrev failed_condition : Condition
failed_condition = record {
  type = "Configured";
  status = condition_false;
  reason = "Failed";
  message = "no such file";
  observed_generation = 1;
}

abbrev failed_config : NodeConfigObject
failed_config = record (config false) {
  status = record { conditions = failed_condition ∷ []; inventory = (inventory_read false).0 };
}

abbrev failed_daemon : Daemon
failed_daemon = record (daemon false) { get = λ k s. (ok failed_config, s) }

failed_write :
    update_status failed_daemon (config false) failed_condition node
    ≡ (ok tt, (failed_config, node))
unfolding update_status
failed_write = ground (arith, (inventory_read false).1)

-- A list of accelerators with one address has one accelerator.
has_accelerator :
    (accs : List SriovAccelerator) (a : String)
    → addresses accs ≡ a ∷ []
    → (acc : SriovAccelerator) × (others : List SriovAccelerator) × (accs ≡ acc ∷ others)
has_accelerator [] a h = absurd (ground (arith, h))
has_accelerator (acc ∷ others) a h = (acc, others, refl)

pf_supported : supported_addresses machine supported node (device ∷ []) ≡ pf ∷ []
unfolding supported_addresses supports has_key device
pf_supported = refl

recorded :
    (acc : SriovAccelerator) × (others : List SriovAccelerator)
    × (failed_config.status.inventory.sriov_accelerators ≡ acc ∷ others)
unfolding supported_addresses
recorded = has_accelerator _ pf ((inventory_read false).2 ∙ pf_supported)

settled_example :
    reconcile failed_daemon key node
    ≡ (replied (record { requeue_after = resync_period; error = none }), node)
settled_example =
    reconcile-update_status failed_daemon key (config false) failed_config failed_condition node
      node node node pf_config [] recorded.0 recorded.1 refl refl refl refl refl failed_write refl
      (inventory_read false).1 recorded.2
