-- ===== src/Fec/Devices/Laws.antt =====
-- Binding a device and changing the amount of its virtual functions, on a node whose sysfs behaves
-- as the kernel documents.
use openshift_operator.Base.{
  ℕ, ◌≤◌, ◌≡◌, refl, ◌⊎◌, inl, Bool, true, String, arith, itoa, Option, none, some, Error,
  not_exist, ok, err,
}
use openshift_operator.Fec.{Machine}
use openshift_operator.Fec.Devices.{
  ◌/path◌, sys_bus_pci_devices, sys_bus_pci_drivers, vf_num_file, is_device_bound_to_driver,
  unbind_device_from_driver, override_and_bind, bind_device_to_driver, write_vfs, write_new_amount,
  change_amount_of_vfs,
}

-- The files of the kernel for drivers: `driver` is a link to the driver's folder while the device is
-- bound; a write to `unbind` there unbinds it; a write to `driver_override` names the only driver
-- that may bind it; and a write to the `bind` file of a loaded driver binds a free device that the
-- driver may bind. This is said of the devices that there are.
pub record HasDrivers (M : Machine) : Type 0 where
  pub device : String → Bool
  pub driver_of : M.State → String → Option String
  pub override_of : M.State → String → String
  pub loaded : M.State → String → Bool
  pub stat_bound :
      (s : M.State) (d x : String)
      → device d ≡ true
      → driver_of s d ≡ some x
      → M.stat (sys_bus_pci_devices /path d /path "driver") s ≡ (ok tt, s)
  pub missing : String → Error
  pub missing_lem : (d : String) → (m : String) × (missing d ≡ not_exist m)
  pub stat_free :
      (s : M.State) (d : String)
      → device d ≡ true
      → driver_of s d ≡ none
      → M.stat (sys_bus_pci_devices /path d /path "driver") s ≡ (err (missing d), s)
  pub link :
      (s : M.State) (d x : String)
      → device d ≡ true
      → driver_of s d ≡ some x
      → M.eval_symlinks (sys_bus_pci_devices /path d /path "driver") s
        ≡ (ok (sys_bus_pci_drivers /path x), s)
  pub unbind :
      (s : M.State) (d x y : String)
      → device d ≡ true
      → driver_of s d ≡ some x
      → let r = M.write_file ((sys_bus_pci_drivers /path x) /path "unbind") d s in
        (r.0 ≡ ok tt) × (driver_of r.1 d ≡ none) × (loaded r.1 y ≡ loaded s y)
  pub override :
      (s : M.State) (d x y : String)
      → device d ≡ true
      → let r = M.write_file (sys_bus_pci_devices /path d /path "driver_override") x s in
        (r.0 ≡ ok tt)
        × (override_of r.1 d ≡ x)
        × (driver_of r.1 d ≡ driver_of s d)
        × (loaded r.1 y ≡ loaded s y)
  pub bind :
      (s : M.State) (d x : String)
      → device d ≡ true
      → driver_of s d ≡ none
      → override_of s d ≡ x
      → loaded s x ≡ true
      → let r = M.write_file (sys_bus_pci_drivers /path x /path "bind") d s in
        (r.0 ≡ ok tt) × (driver_of r.1 d ≡ some x)

-- The file `sriov_numvfs`: of a device that has it, the kernel takes 0 at any time, and another
-- amount, up to what `sriov_totalvfs` says, only while there are no virtual functions.
pub record HasVfs (M : Machine) : Type 0 where
  pub pf : String → Bool
  pub total_vfs : String → ℕ
  pub num_vfs :
      (s : M.State) (d : String) (n : ℕ)
      → pf d ≡ true
      → n ≤ total_vfs d
      → (n ≡ 0) ⊎ (M.vf_configured d s ≡ 0)
      → let r = M.write_file (sys_bus_pci_devices /path d /path vf_num_file) (itoa n) s in
        (r.0 ≡ ok tt) × (M.vf_configured d r.1 ≡ n)

module _ (M : Machine) (D : HasDrivers M) where
  open D use {device, driver_of, override_of, loaded}

  override_and_bind_ok :
      (s : M.State) (d x : String)
      → device d ≡ true
      → driver_of s d ≡ none
      → loaded s x ≡ true
      → ((override_and_bind M d x s).0 ≡ ok tt)
        × (driver_of (override_and_bind M d x s).1 d ≡ some x)
  unfolding override_and_bind
  override_and_bind_ok s d x known free there =
      let s1 : M.State =
        (M.write_file (sys_bus_pci_devices /path d /path "driver_override") x s).1 in
      ground (arith, D.override s d x x known, D.bind s1 d x known)

  -- From any state, a device of the node can be bound to a driver that is loaded: no error is
  -- returned, and the device is bound to that driver, whatever it was bound to before.
  pub bind_device_to_driver_ok :
      (s : M.State) (d x : String)
      → device d ≡ true
      → loaded s x ≡ true
      → ((bind_device_to_driver M d x s).0 ≡ ok tt)
        × (driver_of (bind_device_to_driver M d x s).1 d ≡ some x)
  unfolding bind_device_to_driver is_device_bound_to_driver unbind_device_from_driver
  bind_device_to_driver_ok s d x known there = by_driver (driver_of s d) refl
    where
      by_driver :
          (o : Option String)
          → driver_of s d ≡ o
          → ((bind_device_to_driver M d x s).0 ≡ ok tt)
            × (driver_of (bind_device_to_driver M d x s).1 d ≡ some x)
      by_driver none h =
          ground (arith, D.stat_free s d known h, D.missing_lem d, override_and_bind_ok s d x known)
      by_driver (some y) h =
          let s1 : M.State = (M.write_file ((sys_bus_pci_drivers /path y) /path "unbind") d s).1 in
          ground (
            arith,
            D.stat_bound s d y known h,
            D.link s d y known h,
            D.unbind s d y x known h,
            override_and_bind_ok s1 d x known,
          )

module _ (M : Machine) (V : HasVfs M) where
  -- From any amount, the virtual functions of a device that has them can be changed to any other amount
  -- up to what the device can have: no error is returned, and the new amount is configured.
  pub change_amount_of_vfs_ok :
      (s : M.State) (d : String) (n : ℕ)
      → V.pf d ≡ true
      → n ≤ V.total_vfs d
      → ((change_amount_of_vfs M d n s).0 ≡ ok tt)
        × (M.vf_configured d (change_amount_of_vfs M d n s).1 ≡ n)
  unfolding change_amount_of_vfs write_new_amount write_vfs
  change_amount_of_vfs_ok s d n known few =
      let s1 : M.State =
        (M.write_file (sys_bus_pci_devices /path d /path vf_num_file) (itoa 0) s).1 in
      let zero_fits : 0 ≤ V.total_vfs d = omega arith in
      ground (
        arith,
        V.num_vfs s d 0 known zero_fits (inl refl),
        V.num_vfs s1 d n known few,
        V.num_vfs s d n known few,
      )
