-- ===== src/Fec/Devices.antt =====
-- sriov-fec/pkg/daemon/node_management.go: drivers and the amount of virtual functions. Paths are
-- joined by a slash and not cleaned.
pub mod Laws
use openshift_operator.Base.{
  ℕ, Bool, true, false, String, ◌<>◌, [], ◌∷◌, ltb, eqb, itoa, failure, message, is_not_exist, ok,
  Exec, pure, raise, handle, if◌then◌else◌, ◌>>=◌, ◌>>◌,
}
use openshift_operator.Fec.{Machine, exec_cmd}

infixr 66 ◌/path◌
-- `filepath.Join` of two elements
abbrev pub ◌/path◌ : String → String → String
a /path b = a <> ("/" <> b)

abbrev pub sys_bus_pci_devices : String
sys_bus_pci_devices = "/sys/bus/pci/devices"

abbrev pub sys_bus_pci_drivers : String
sys_bus_pci_drivers = "/sys/bus/pci/drivers"

abbrev pub vf_num_file : String
vf_num_file = "sriov_numvfs"

module _ (M : Machine) where
  unfoldable pub load_module : String → Exec M.State (Unit {0})
  load_module module_name =
      exec_cmd M ("chroot" ∷ "/host/" ∷ "modprobe" ∷ module_name ∷ []) >>= λ _. pure tt

  unfoldable pub reboot_node : Exec M.State (Unit {0})
  reboot_node =
      exec_cmd M (
        "chroot" ∷ "--userspec" ∷ "0" ∷ "/host" ∷ "systemd-run" ∷ "--unit"
        ∷ "sriov-fec-daemon-reboot" ∷ "--description" ∷ "sriov-fec-daemon reboot" ∷ "/bin/sh" ∷ "-c"
        ∷ "systemctl stop kubelet.service; reboot" ∷ [])
      >>= λ _. pure tt

  unfoldable pub is_device_bound_to_driver : String → Exec M.State Bool
  is_device_bound_to_driver pci_addr =
      handle (M.stat (sys_bus_pci_devices /path pci_addr /path "driver")) (λ _. pure true)
        (λ e. if is_not_exist e then pure false else raise e)

  unfoldable pub unbind_device_from_driver : String → Exec M.State (Unit {0})
  unbind_device_from_driver pci_address =
      M.eval_symlinks (sys_bus_pci_devices /path pci_address /path "driver") >>= λ driver_path.
      M.write_file (driver_path /path "unbind") pci_address

  -- The two writes at the end of `bindDeviceToDriver`.
  unfoldable pub override_and_bind : String → String → Exec M.State (Unit {0})
  override_and_bind pci_address driver =
      M.write_file (sys_bus_pci_devices /path pci_address /path "driver_override") driver
      >> M.write_file (sys_bus_pci_drivers /path driver /path "bind") pci_address

  unfoldable pub bind_device_to_driver : String → String → Exec M.State (Unit {0})
  bind_device_to_driver pci_address driver = is_device_bound_to_driver pci_address >>= λ is_bound.
      if is_bound
      then (unbind_device_from_driver pci_address >> override_and_bind pci_address driver)
      else override_and_bind pci_address driver

  -- The closure `writeVfs`.
  unfoldable pub write_vfs : String → ℕ → Exec M.State (Unit {0})
  write_vfs pf_pci_address vfs_amount =
      handle
        (M.write_file (sys_bus_pci_devices /path pf_pci_address /path vf_num_file)
          (itoa vfs_amount))
        (λ _. pure tt)
        (λ e. raise (
          failure (
            "failed to set new amount of VFs ("
            <> (itoa vfs_amount <> (") for PF (" <> (pf_pci_address <> ("): " <> message e)))))))

  -- The last test of `changeAmountOfVFs`.
  unfoldable pub write_new_amount : String → ℕ → Exec M.State (Unit {0})
  write_new_amount pf_pci_address vfs_amount =
      if ltb 0 vfs_amount then write_vfs pf_pci_address vfs_amount else pure tt

  unfoldable pub change_amount_of_vfs : String → ℕ → Exec M.State (Unit {0})
  change_amount_of_vfs pf_pci_address vfs_amount s =
      let current_amount = M.vf_configured pf_pci_address s in
      if eqb current_amount vfs_amount
      then (ok tt, s)
      else if ltb 0 current_amount
      then (write_vfs pf_pci_address 0 >> write_new_amount pf_pci_address vfs_amount) s
      else write_new_amount pf_pci_address vfs_amount s
