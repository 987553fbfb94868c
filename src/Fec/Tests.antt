-- ===== src/Fec/Tests.antt =====
-- The theorems at a node in memory.
use openshift_operator.Base.{
  contains, String, ◌<>◌, ◌/◌, ◌%◌, ◌>>=◌, pure, ℕ, ◌≡◌, refl, ◌≤◌, true, false, List, [], ◌∷◌,
  none, some, arith, itoa, atoi, ok, Exec,
}
use openshift_operator.Fec.Devices.{
  load_module, is_device_bound_to_driver, override_and_bind, unbind_device_from_driver,
  write_new_amount, write_vfs, bind_device_to_driver, change_amount_of_vfs,
}
use openshift_operator.Fec.Inventory.{
  accelerators, accelerator_of, driver_or_empty, vf_infos, vf_info, get_or_empty,
  AcceleratorDiscoveryConfig, is_supported, lookup, get_sriov_inventory,
}
use openshift_operator.Fec.MasterBus.{
  enable_master_bus, has_master_bus, parse_hex, parse_int, set_command, set_from, split_equals,
  without_newline,
}
use openshift_operator.Fec.Queues.{
  acc100_file, group_section, run_pf_config, total_queue_groups, generate_acc100_bb_dev_config_file,
  generate_bb_dev_config_file,
}
use openshift_operator.Fec.Apply.{
  apply_pfs, matching_accelerator, create_vfs, bind_vfs, configure_queues, deferring,
  enable_bus_of_stub, is_pci_stub, apply_config,
}
use openshift_operator.Fec.{exec_cmd, IniSection}
use openshift_operator.Fec.Queues.Laws.{read_acc100, generate_bb_dev_config_file_saves}
use openshift_operator.Fec.Kernel.{
  rpmostree, rpmostree_based_kernel_args_setter, rpm_ostree, append_missing, kernel_params,
  add_missing_kernel_params,
}
use openshift_operator.Fec.Kernel.Laws.{with_missing, add_missing_kernel_params-rpmostree}
use openshift_operator.Fec.Inventory.Laws.{
  addresses, has_key, supports, supported_addresses, get_sriov_inventory_ok,
}
use openshift_operator.Fec.Apply.Files.{apply_config-files}
use openshift_operator.Api.Sriov.{
  PhysicalFunctionConfig, SriovFecNodeConfigSpec, QueueGroupConfig, Acc100BbDevConfig, BbDevConfig,
  NodeInventory,
}
use openshift_operator.Fec.Devices.Laws.{change_amount_of_vfs_ok}
use openshift_operator.Fec.MasterBus.Laws.{set_command_lem}
use openshift_operator.Fec.Memory.{
  Sysfs, pf, name_of, write, find_driver, find_bound, device, command, machine, is_pf, delete,
  machine-HasVfs, machine-HasFiles, machine-HasKargs, machine-ReadsOnly,
}

abbrev pub node : Sysfs
node = record {
  bound = some false;
  override = "";
  vfs = 2;
  kernel_args = "ro iommu=pt";
  saved = [];
  files = "/etc/os-release" ∷ [];
  cordoned = false;
  drained = false;
}

change_amount_example :
    ((change_amount_of_vfs machine pf 16 node).0 ≡ ok tt)
    × ((change_amount_of_vfs machine pf 16 node).1.vfs ≡ 16)
unfolding is_pf
change_amount_example = change_amount_of_vfs_ok machine machine-HasVfs node pf 16 refl (omega arith)

abbrev queue_groups : ℕ → QueueGroupConfig
queue_groups n = record { num_queue_groups = n; num_aqs_per_groups = 16; aq_depth_log2 = 4 }

abbrev acc100_config : ℕ → Acc100BbDevConfig
acc100_config n = record {
  pf_mode = true;
  num_vf_bundles = 16;
  max_queue_size = 1024;
  uplink4g = queue_groups n;
  downlink4g = queue_groups 2;
  uplink5g = queue_groups 2;
  downlink5g = queue_groups 2;
}

abbrev bb_dev_config : ℕ → BbDevConfig
bb_dev_config n = record { n3000 = none; acc100 = some (acc100_config n) }

saves_example :
    (total_queue_groups (acc100_config 2) ≤ 8)
    × (content : List IniSection) × ((machine.save_to content "a.ini" node).0 ≡ ok tt)
    × ((generate_bb_dev_config_file machine (bb_dev_config 2) "a.ini" node).1
        ≡ (machine.save_to content "a.ini" node).1)
    × (read_acc100 content ≡ acc100_config 2)
unfolding generate_bb_dev_config_file generate_acc100_bb_dev_config_file total_queue_groups
saves_example = generate_bb_dev_config_file_saves machine none (acc100_config 2) "a.ini" node refl

kernel_params_example :
    (add_missing_kernel_params machine rpmostree node).1.kernel_args
    ≡ with_missing "ro iommu=pt" kernel_params "ro iommu=pt"
unfolding add_missing_kernel_params rpmostree_based_kernel_args_setter rpm_ostree exec_cmd command
    append_missing machine-HasKargs
kernel_params_example = add_missing_kernel_params-rpmostree machine machine-HasKargs node refl

added : with_missing "ro iommu=pt" kernel_params "ro iommu=pt" ≡ "ro iommu=pt intel_iommu=on"
unfolding with_missing
added = refl

abbrev pub supported : AcceleratorDiscoveryConfig
supported = record {
  vendor_id = ("8086", "Intel Corporation") ∷ [];
  class = "12";
  sub_class = "00";
  devices = ("0d5c", "ACC100") ∷ ("0d5d", "ACC100") ∷ [];
  node_label = "fpga.intel.com/intel-accelerator-present";
}

inventory_example :
    (inv : NodeInventory) × (get_sriov_inventory machine supported node ≡ (ok inv, node))
    × (addresses inv.sriov_accelerators ≡ supported_addresses machine supported node (device ∷ []))
unfolding device
inventory_example = get_sriov_inventory_ok machine machine-ReadsOnly supported device [] node refl

found : supported_addresses machine supported node (device ∷ []) ≡ (pf ∷ [])
unfolding supported_addresses device supports has_key
found = refl

abbrev pub pf_config : PhysicalFunctionConfig
pf_config = record {
  pci_address = pf;
  pf_driver = "pci-pf-stub";
  vf_driver = "igb_uio";
  vf_amount = 4;
  bb_dev_config = bb_dev_config 2;
}

abbrev pub spec : SriovFecNodeConfigSpec
spec = record { physical_functions = pf_config ∷ []; drain_skip = false }

apply_node : SriovFecNodeConfigSpec → Exec Sysfs (Unit {0})
unfolding apply_config get_sriov_inventory accelerators is_supported lookup device accelerator_of
    driver_or_empty vf_infos apply_pfs matching_accelerator create_vfs load_module exec_cmd command
    bind_device_to_driver is_device_bound_to_driver find_bound itoa bind_vfs configure_queues
    deferring enable_bus_of_stub is_pci_stub change_amount_of_vfs override_and_bind
    unbind_device_from_driver write_new_amount write_vfs get_or_empty vf_info enable_master_bus
    has_master_bus parse_hex parse_int set_command set_from split_equals without_newline acc100_file
    generate_acc100_bb_dev_config_file generate_bb_dev_config_file group_section run_pf_config
    total_queue_groups write find_driver name_of delete atoi
apply_node = apply_config machine supported

applied : (apply_node spec node).0 ≡ ok tt
unfolding apply_node
applied = refl

kept : contains (apply_node spec node).1.files "/etc/os-release" ≡ true
unfolding apply_node contains
kept = refl

files_example : contains node.files "/etc/os-release" ≡ true
unfolding apply_node
files_example =
    apply_config-files machine machine-HasFiles (λ file s h. refl) machine-ReadsOnly supported spec
      node "/etc/os-release" applied kept

master_bus_example :
    (h : String) × (w : ℕ) × (set_command machine "0000:01:00.0" "0102\n" ≡ (
      exec_cmd machine
        ("chroot" ∷ "/host/" ∷ "setpci" ∷ "-v" ∷ "-s" ∷ "0000:01:00.0" ∷ ("COMMAND=0" <> h) ∷ [])
      >>= λ _. pure tt))
    × (parse_hex h ≡ some w)
    × (has_master_bus w ≡ true)
    × (w % 4 ≡ 258 % 4)
    × (w / 8 ≡ 258 / 8)
unfolding without_newline parse_int parse_hex has_master_bus
master_bus_example = set_command_lem machine "0000:01:00.0" "0102\n" 258 refl (omega arith) refl
