-- ===== src/Labeler/Tests.antt =====
-- A node in memory whose labels are the state, and the theorem at it.
use openshift_operator.Base.{
  ◌≡◌, refl, arith, String, List, [], ◌∷◌, none, some, ok, pure, if◌then◌else◌,
}
use openshift_operator.Fec.{PciDevice}
use openshift_operator.Fec.Inventory.{AcceleratorDiscoveryConfig, lookup, is_supported}
use openshift_operator.Labeler.{
  Labels, World, config_file, delete_key, set_key, new_labels, set_node_label, get_pci_devices,
  any_supported, find_accelerator, accelerator_discovery,
}
use openshift_operator.Labeler.Config.{wrapping, load_discovery_config}
use openshift_operator.Labeler.Laws.{HasNodes, has_supported, accelerator_discovery_ok}

abbrev label : String
label = "fpga.intel.com/intel-accelerator-present"

abbrev device : PciDevice
device = record {
  address = "0000:01:00.0";
  vendor_id = "8086";
  class_id = "12";
  subclass_id = "00";
  product_id = "0d5c";
}

abbrev config : AcceleratorDiscoveryConfig
config = record {
  vendor_id = ("8086", "Intel Corporation") ∷ [];
  class = "12";
  sub_class = "00";
  devices = ("0d5c", "ACC100") ∷ [];
  node_label = label;
}

abbrev world : List PciDevice → World
world devices = record {
  State = Labels;
  node_name = "node1";
  open_file = λ path. pure tt;
  size = pure 2;
  read = λ size. pure ("{}", 2);
  unmarshal = λ text. ok config;
  list_devices = pure devices;
  in_cluster_config = pure tt;
  new_for_config = pure tt;
  get_node = λ n s. (ok s, s);
  update_node = λ n m s. (ok tt, m);
}

shown : (s m : Labels) → ok s ≡ ok m → m ≡ s
shown s m h = ground arith

abbrev world-HasNodes : (devices : List PciDevice) → HasNodes (world devices)
world-HasNodes devices = record {
  labels_of = λ s n. s;
  config_keeps = λ s n. refl;
  client_keeps = λ s n. refl;
  shows = λ n s m h. shown s m h;
  sets = λ n m s h. refl;
}

abbrev labels : Labels
labels = ("os", "linux") ∷ []

discover : List PciDevice → Labels → Labels
unfolding accelerator_discovery load_discovery_config find_accelerator get_pci_devices any_supported
    is_supported lookup set_node_label new_labels set_key delete_key wrapping
discover devices s = (accelerator_discovery (world devices) "a.json" s).1

discovered : discover (device ∷ []) labels ≡ (label, "") ∷ ("os", "linux") ∷ []
unfolding discover
discovered = refl

discovery_example :
    (cfg : AcceleratorDiscoveryConfig) × (ds : List PciDevice) × ((load_discovery_config
        (config_file (world (device ∷ [])))
        "a.json"
        labels).0
      ≡ ok cfg)
    × (ok (device ∷ []) ≡ ok ds)
    × (lookup cfg.node_label (discover (device ∷ []) labels)
        ≡ (if has_supported cfg ds then some "" else none))
unfolding discover
discovery_example =
    accelerator_discovery_ok (world (device ∷ [])) (world-HasNodes (device ∷ [])) "a.json" labels
      refl
