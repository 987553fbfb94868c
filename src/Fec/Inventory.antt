-- ===== src/Fec/Inventory.antt =====
-- sriov-fec/pkg/daemon/inventory.go, over common/pkg/utils/utils.go's `AcceleratorDiscoveryConfig`:
-- the accelerators of a node and their virtual functions.
pub mod Laws
use openshift_operator.Base.{
  Bool, ◌&&◌, String, List, [], ◌∷◌, ◌==◌, is_some, Option, none, some, failure, ok, Exec, pure,
  raise, handle, if◌then◌else◌, ◌>>=◌,
}
use openshift_operator.Api.Sriov.{Vf, SriovAccelerator, NodeInventory}
use openshift_operator.Fec.{Machine, PciDevice}

-- A Go map from texts to texts.
unfoldable pub lookup : String → List (String × String) → Option String
lookup k [] = none
lookup k ((j, v) ∷ m) = if j == k then some v else lookup k m

-- `m[k]`, which is empty where the key is missing.
unfoldable pub get_or_empty : String → List (String × String) → String
get_or_empty k m = elim (lookup k m) [ none ↦ "" | some v ↦ v ]

pub record AcceleratorDiscoveryConfig : Type 0 where
  pub vendor_id : List (String × String)
  pub class : String
  pub sub_class : String
  pub devices : List (String × String)
  pub node_label : String

-- The two tests of the loops over the PCI devices, which the labeler makes too.
unfoldable pub is_supported : AcceleratorDiscoveryConfig → PciDevice → Bool
is_supported cfg device =
    (is_some (lookup device.vendor_id cfg.vendor_id)
      && (device.class_id == cfg.class && device.subclass_id == cfg.sub_class))
    && is_some (lookup device.product_id cfg.devices)

module _ (M : Machine) where
  -- A driver whose name cannot be read is left empty.
  unfoldable pub driver_or_empty : String → Exec M.State String
  driver_or_empty address = handle (M.driver_name address) pure (λ _. pure "")

  unfoldable pub vf_info : String → Exec M.State Vf
  vf_info vf = driver_or_empty vf >>= λ driver s. (
    ok (record {
      pci_address = vf;
      driver = driver;
      device_id = elim (M.get_device vf s) [ none ↦ "" | some info ↦ info.product_id ];
    }),
    s,
  )

  unfoldable pub vf_infos : List String → Exec M.State (List Vf)
  vf_infos [] = pure []
  vf_infos (vf ∷ vfs) = vf_info vf >>= λ info. vf_infos vfs >>= λ infos. pure (info ∷ infos)

  -- The body of the loop for a device that is supported and can have virtual functions.
  unfoldable pub accelerator_of : PciDevice → Exec M.State SriovAccelerator
  accelerator_of device = driver_or_empty device.address >>= λ driver s.
      let max_vfs = M.vf_capacity device.address s in
      ((handle (M.vf_list device.address) pure (λ _. pure []) >>= vf_infos) >>= λ vfs.
      pure (record {
        vendor_id = device.vendor_id;
        device_id = device.product_id;
        pci_address = device.address;
        driver = driver;
        max_vfs = max_vfs;
        vfs = vfs;
      }))
        s

  module _ (supported : AcceleratorDiscoveryConfig) where
    unfoldable pub accelerators : List PciDevice → Exec M.State (List SriovAccelerator)
    accelerators [] s = (ok [], s)
    accelerators (device ∷ devices) s =
        let rest = accelerators devices in
        if is_supported supported device && M.is_sriov_pf device.address s
        then (accelerator_of device >>= λ acc. rest >>= λ accs. pure (acc ∷ accs)) s
        else rest s

    unfoldable pub get_sriov_inventory : Exec M.State NodeInventory
    get_sriov_inventory = M.list_devices >>= λ devices. elim devices [
      | [] ↦ raise (failure "pci.ListDevices() returned 0 devices")
      | device ∷ rest ↦
          accelerators (device ∷ rest) >>= λ accs. pure (record { sriov_accelerators = accs })
    ]
