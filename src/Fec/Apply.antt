-- ===== src/Fec/Apply.antt =====
-- sriov-fec/pkg/daemon/node_management.go: `applyConfig`, the configuration of the physical
-- functions of a node.
pub mod Laws
pub mod Keeping
pub mod Files
pub mod Facts
pub mod Binding
pub mod Configured
pub mod Applied
pub mod Memory
mod Tests
use openshift_operator.Base.{
  Bool, true, false, ◌||◌, String, ◌<>◌, List, [], ◌∷◌, ◌==◌, is_some, Option, none, some, failure,
  Exec, pure, raise, str_contains, ◌>>=◌, ◌>>◌, if◌then◌else◌,
}
use openshift_operator.Api.Sriov.{
  Vf, SriovAccelerator, PhysicalFunctionConfig, SriovFecNodeConfigSpec,
}
use openshift_operator.Fec.{Machine}
use openshift_operator.Fec.Devices.{
  ◌/path◌, load_module, bind_device_to_driver, change_amount_of_vfs,
}
use openshift_operator.Fec.Queues.{generate_bb_dev_config_file, run_pf_config}
use openshift_operator.Fec.Inventory.{AcceleratorDiscoveryConfig, get_or_empty, get_sriov_inventory}
use openshift_operator.Fec.MasterBus.{enable_master_bus}

abbrev pub workdir : String
workdir = "/sriov_artifacts"

-- `getMatchingExistingAccelerator`
unfoldable pub matching_accelerator : List SriovAccelerator → String → Option SriovAccelerator
matching_accelerator [] pci_address = none
matching_accelerator (acc ∷ accs) pci_address =
    if acc.pci_address == pci_address then some acc else matching_accelerator accs pci_address

-- `pciStubRegex.MatchString(driver)` of the expression pci[-_]pf[-_]stub
unfoldable pub is_pci_stub : String → Bool
is_pci_stub driver =
    (str_contains driver "pci-pf-stub" || str_contains driver "pci-pf_stub")
    || (str_contains driver "pci_pf-stub" || str_contains driver "pci_pf_stub")

abbrev pub has_vfs : List Vf → Bool
has_vfs [] = false
has_vfs (vf ∷ vfs) = true

module _ {S : Type 0} where
  -- A deferred call, whose error is only logged: it is made when what follows has returned.
  unfoldable pub deferring : Exec S (Unit {0}) → Exec S (Unit {0}) → Exec S (Unit {0})
  deferring cleanup body s =
      let (result, s1) = body s in let (ignored, s2) = cleanup s1 in (result, s2)

module _ (M : Machine) where
  -- The loop over the created virtual functions.
  unfoldable pub bind_vfs : String → List String → Exec M.State (Unit {0})
  bind_vfs driver [] = pure tt
  bind_vfs driver (vf ∷ vfs) = bind_device_to_driver M vf driver >> bind_vfs driver vfs

  -- The body of the loop up to the creation of the virtual functions and their drivers.
  unfoldable pub create_vfs : SriovAccelerator → PhysicalFunctionConfig → Exec M.State (Unit {0})
  create_vfs acc pf =
      load_module M pf.pf_driver
      >> load_module M pf.vf_driver
      >> (if has_vfs acc.vfs then change_amount_of_vfs M pf.pci_address 0 else pure tt)
      >> bind_device_to_driver M pf.pci_address pf.pf_driver
      >> change_amount_of_vfs M pf.pci_address pf.vf_amount
      >> (M.vf_list pf.pci_address >>= bind_vfs pf.vf_driver)

  unfoldable pub enable_bus_of_stub : PhysicalFunctionConfig → Exec M.State (Unit {0})
  enable_bus_of_stub pf =
      if is_pci_stub pf.pf_driver then enable_master_bus M pf.pci_address else pure tt

  module _ (supported : AcceleratorDiscoveryConfig) where
    -- The rest of the body; `rest` is what the function does after it, so that a deferred removal
    -- of the file comes after that.
    unfoldable pub configure_queues :
        SriovAccelerator
        → PhysicalFunctionConfig
        → Exec M.State (Unit {0})
        → Exec M.State (Unit {0})
    configure_queues acc pf rest =
        let file = workdir /path (pf.pci_address <> ".ini") in
        if is_some pf.bb_dev_config.n3000 || is_some pf.bb_dev_config.acc100
        then (generate_bb_dev_config_file M pf.bb_dev_config file
            >> deferring (M.remove file) (
                run_pf_config M (get_or_empty acc.device_id supported.devices) file pf.pci_address
                >> enable_bus_of_stub pf
                >> rest))
        else (enable_bus_of_stub pf >> rest)

    -- The loop over the physical functions.
    unfoldable pub apply_pfs :
        List SriovAccelerator → List PhysicalFunctionConfig → Exec M.State (Unit {0})
    apply_pfs accs [] = pure tt
    apply_pfs accs (pf ∷ pfs) = elim (matching_accelerator accs pf.pci_address) [
      | none ↦
          raise
            (failure ("unknown (" <> (pf.pci_address <> " not present in inventory) PciAddress")))
      | some acc ↦ create_vfs acc pf >> configure_queues acc pf (apply_pfs accs pfs)
    ]

    unfoldable pub apply_config : SriovFecNodeConfigSpec → Exec M.State (Unit {0})
    apply_config node_config = get_sriov_inventory M supported >>= λ inv.
        apply_pfs inv.sriov_accelerators node_config.physical_functions
