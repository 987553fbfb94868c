-- ===== src/Fec.antt =====
-- sriov-fec/pkg/daemon: the daemon that configures the accelerators of one node. What it uses of the
-- node is a parameter: files under /sys and /proc, commands, the PCI listing of ghw and the helpers
-- of the SR-IOV network device plugin, over an unknown state. A pure read that cannot fail is a
-- function of the state.
pub mod Devices
pub mod Queues
pub mod Kernel
pub mod Inventory
pub mod MasterBus
pub mod Apply
pub mod Reconcile
pub mod Setup
pub mod Memory
mod Tests
use openshift_operator.Base.{
  ℕ, Bool, String, List, [], ◌∷◌, Option, failure, Exec, raise, pure, handle,
}

-- `ghw.PCIDevice`, as far as it is read.
pub record PciDevice : Type 0 where
  pub address : String
  pub vendor_id : String
  pub class_id : String
  pub subclass_id : String
  pub product_id : String

-- An ini file: its sections with their keys and values, in order.
pub record IniSection : Type 0 where
  pub section : String
  pub entries : List (String × String)

pub record Machine : Type 1 where
  pub State : Type 0
  -- exec.Command(args[0], args[1:]...).Output()
  pub output : String → List String → Exec State String
  -- os.Stat, filepath.EvalSymlinks, ioutil.WriteFile, ioutil.ReadFile, os.Remove
  pub stat : String → Exec State (Unit {0})
  pub eval_symlinks : String → Exec State String
  pub write_file : String → String → Exec State (Unit {0})
  pub read_file : String → Exec State String
  pub remove : String → Exec State (Unit {0})
  -- ini.File.SaveTo
  pub save_to : List IniSection → String → Exec State (Unit {0})
  -- utils.GetVFconfigured, utils.GetVFList, utils.IsSriovPF, utils.GetDriverName,
  -- utils.GetSriovVFcapacity
  pub vf_configured : String → State → ℕ
  pub vf_list : String → Exec State (List String)
  pub is_sriov_pf : String → State → Bool
  pub driver_name : String → Exec State String
  pub vf_capacity : String → State → ℕ
  -- ghw.PCI with ListDevices, and GetDevice
  pub list_devices : Exec State (List PciDevice)
  pub get_device : String → State → Option PciDevice

module _ (M : Machine) where
  -- `execCmd`
  unfoldable pub exec_cmd : List String → Exec M.State String
  exec_cmd [] = raise (failure "cmd is empty")
  exec_cmd (cmd ∷ args) = handle (M.output cmd args) pure raise
