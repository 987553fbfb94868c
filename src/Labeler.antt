-- ===== src/Labeler.antt =====
-- labeler/main.go, the program that marks its
-- node with a label where the node has an accelerator. The file, the PCI listing, the Kubernetes API
-- and `json.Unmarshal` are parameters. Of a node, the labels are kept.
pub mod Config
pub mod Laws
mod Tests
use openshift_operator.Base.{
  ℕ, Bool, true, false, not, String, ◌<>◌, List, [], ◌∷◌, ◌==◌, ltb, eqb, itoa, failure, message,
  Result, ok, err, Exec, pure, raise, handle, ◌>>=◌, ◌>>◌, if◌then◌else◌,
}
use openshift_operator.Fec.{PciDevice}
use openshift_operator.Fec.Inventory.{AcceleratorDiscoveryConfig, is_supported}
use openshift_operator.Labeler.Config.{wrapping, ConfigFile, load_discovery_config}

abbrev pub Labels : Type 0
Labels = List (String × String)

pub record World : Type 1 where
  pub State : Type 0
  -- the environment variable NODENAME
  pub node_name : String
  -- os.Open, Stat().Size() and Read, which gives the data and the number of bytes read
  pub open_file : String → Exec State (Unit {0})
  pub size : Exec State ℕ
  pub read : ℕ → Exec State (String × ℕ)
  pub unmarshal : String → Result AcceleratorDiscoveryConfig
  -- ghw.PCI with ListDevices
  pub list_devices : Exec State (List PciDevice)
  -- rest.InClusterConfig, clientset.NewForConfig, and Get and Update of a node
  pub in_cluster_config : Exec State (Unit {0})
  pub new_for_config : Exec State (Unit {0})
  pub get_node : String → Exec State Labels
  pub update_node : String → Labels → Exec State (Unit {0})

-- `delete(m, k)`
unfoldable pub delete_key : String → Labels → Labels
delete_key k [] = []
delete_key k ((j, v) ∷ m) = let rest = delete_key k m in if j == k then rest else (j, v) ∷ rest

-- `m[k] = v`
unfoldable pub set_key : String → String → Labels → Labels
set_key k v m = (k, v) ∷ delete_key k m

-- The loop of `findAccelerator`.
unfoldable pub any_supported : AcceleratorDiscoveryConfig → List PciDevice → Bool
any_supported cfg [] = false
any_supported cfg (device ∷ devices) =
    if is_supported cfg device then true else any_supported cfg devices

-- The files of the world, for the configuration.
abbrev pub config_file : World → ConfigFile
config_file W = record {
  State = W.State;
  open_file = W.open_file;
  size = W.size;
  read = W.read;
  unmarshal = W.unmarshal;
}

module _ (W : World) where
  open W use {State}

  unfoldable pub get_pci_devices : Exec State (List PciDevice)
  get_pci_devices = wrapping "Failed to get PCI info: " W.list_devices >>= λ devices. elim devices [
    | [] ↦ raise (failure "Got 0 devices")
    | d ∷ ds ↦ pure (d ∷ ds)
  ]

  unfoldable pub find_accelerator : AcceleratorDiscoveryConfig → Exec State Bool
  find_accelerator cfg = wrapping "Failed to get PCI devices: " get_pci_devices >>= λ devices.
      pure (any_supported cfg devices)

  -- The labels that the node is updated with. A node without labels has a nil map, in which
  -- `nodeLabels[label] = ""` panics.
  unfoldable pub new_labels : String → Bool → Labels → Result Labels
  new_labels label true labels = ok (delete_key label labels)
  new_labels label false [] = err (failure "panic: assignment to entry in nil map")
  new_labels label false (l ∷ ls) = ok (set_key label "" (l ∷ ls))

  unfoldable pub set_node_label : String → String → Bool → Exec State (Unit {0})
  set_node_label node_name label remove_label =
      wrapping "Failed to get cluster config: " W.in_cluster_config
      >> wrapping "Failed to initialize clientset: " W.new_for_config
      >> wrapping "Failed to get the node object: " (W.get_node node_name)
      >>= (λ labels s. (new_labels label remove_label labels, s))
      >>= λ labels. wrapping "Failed to update the node object: " (W.update_node node_name labels)

  unfoldable pub accelerator_discovery : String → Exec State (Unit {0})
  accelerator_discovery cfg_path =
      wrapping "Failed to load config: " (load_discovery_config (config_file W) cfg_path) >>= λ cfg.
      wrapping "Failed to find accelerator: " (find_accelerator cfg) >>= λ acc_found.
      if W.node_name == ""
      then raise (failure "NODENAME environment variable is empty")
      else set_node_label W.node_name cfg.node_label (not acc_found)
