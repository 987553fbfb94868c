-- ===== src/N3000/Flash.antt =====
-- N3000/pkg/daemon/fortvillemanager.go: `flash`, which updates the network controllers that a resource
-- lists, and what has to hold before it.
pub mod Laws
pub mod DryRun
use openshift_operator.Base.{
  Bool, true, false, not, String, ◌<>◌, List, [], ◌∷◌, ◌==◌, Option, none, some, failure, Result,
  ok, err, Exec, pure, raise, handle, ◌>>=◌, ◌>>◌, if◌then◌else◌,
}
use openshift_operator.Api.Fpga.{FortvilleStatus, N3000FortvilleStatus, N3000Fortville}
use openshift_operator.Fortville.{append_bmc, flash_mac, power_cycle, config_file}
use openshift_operator.N3000.{Node, run_exec, nvm}
use openshift_operator.N3000.Images.{get_image, create_folder}
use openshift_operator.N3000.Program.{wrap}
use openshift_operator.N3000.Nics.{get_inventory}

abbrev pub nvm_install_dest : String
nvm_install_dest = "/n3000-workdir/nvmupdate/"

abbrev pub nvm_package_destination : String
nvm_package_destination = "/n3000-workdir/nvmupdate/nvmupdate.tar.gz"

-- `path.Join(nvmupdate64ePath, nvmupdate64e)`
abbrev pub nvmupdate64e_file : String
nvmupdate64e_file = "/n3000-workdir/nvmupdate/700Series/Linux_x64/nvmupdate64e"

-- Whether one of the controllers has the MAC address.
unfoldable pub has_mac : String → List FortvilleStatus → Bool
has_mac mac [] = false
has_mac mac (nic ∷ nics) = if mac == nic.mac then true else has_mac mac nics

unfoldable pub mac_found : String → List N3000FortvilleStatus → Bool
mac_found mac [] = false
mac_found mac (i ∷ inv) = if has_mac mac i.nics then true else mac_found mac inv

-- The loop over the MAC addresses in `verifyPreconditions`.
unfoldable pub verify_macs : List String → List N3000FortvilleStatus → Result (Unit {0})
verify_macs [] inv = ok tt
verify_macs (m ∷ ms) inv =
    if mac_found m inv then verify_macs ms inv else err (failure ("MAC not found: " <> m))

module _ (N : Node) where
  open N use {State}

  unfoldable pub install_nvmupdate : Exec State (Unit {0})
  install_nvmupdate =
      run_exec N "tar" ("xzfv" ∷ nvm_package_destination ∷ "-C" ∷ nvm_install_dest ∷ []) false
      >> pure tt

  -- The loop of `verifyImagePaths`.
  unfoldable pub verify_paths : List String → Exec State (Unit {0})
  verify_paths [] = pure tt
  verify_paths (p ∷ ps) =
      let rest = verify_paths ps in
      handle (N.is_symlink p)
        (λ link.
          if link then raise (failure ("Symbolic link detected in nvm package " <> p)) else rest)
        (λ e. raise (wrap "Failed to get file info" e))

  unfoldable pub verify_image_paths : Exec State (Unit {0})
  verify_image_paths = verify_paths (nvmupdate64e_file ∷ config_file ∷ [])

  unfoldable pub get_nvm_update : N3000Fortville → Exec State (Unit {0})
  get_nvm_update f =
      if not (f.firmware_url == "")
      then handle (get_image N nvm_package_destination f.firmware_url f.checksum)
          (λ _.
            handle install_nvmupdate (λ _. verify_image_paths)
              (λ e. raise (wrap "NVMUpdate package error:" e)))
          (λ e. raise (wrap "NVMUpdate package error:" e))
      else raise (failure "Empty Fortville.FirmwareURL")

  unfoldable pub verify_preconditions : N3000Fortville → Exec State (Unit {0})
  verify_preconditions f =
      if f.firmware_url == ""
      then raise (failure "Empty Fortville.FirmwareURL")
      else (get_inventory N >>= λ inv.
          ((λ s. (verify_macs f.macs inv, s))
            >> (create_folder N nvm_install_dest >> get_nvm_update f)))

  -- The result of `flashMac`; `none` stands for the bound of the model's loop.
  unfoldable pub flash_result : Option (Result (Unit {0})) × State → Result (Unit {0}) × State
  flash_result (some r, s) = (r, s)
  flash_result (none, s) = (ok tt, s)

  module _ (dry_run : Bool) where
    -- The turns of the loops of `flash` for one MAC address, on the cards of the inventory: the list
    -- of the cards that were flashed so far goes through them.
    unfoldable pub flash_cards :
        String → List N3000FortvilleStatus → List String → Exec State (List String)
    flash_cards mac [] bmcs = pure bmcs
    flash_cards mac (i ∷ inv) bmcs =
        let skip = flash_cards mac inv bmcs in
        let rest = flash_cards mac inv (append_bmc bmcs i.n3000_pci) in
        if has_mac mac i.nics
        then ((λ s. flash_result (flash_mac (nvm N) mac dry_run s)) >> rest)
        else skip

    unfoldable pub flash_macs :
        List String → List N3000FortvilleStatus → List String → Exec State (List String)
    flash_macs [] inv bmcs = pure bmcs
    flash_macs (m ∷ ms) inv bmcs = flash_cards m inv bmcs >>= λ bmcs'. flash_macs ms inv bmcs'

    -- What follows the loops.
    unfoldable pub cycle_flashed : List String → Exec State (Unit {0})
    cycle_flashed [] = pure tt
    cycle_flashed (b ∷ bs) = power_cycle (nvm N) (b ∷ bs) dry_run

    unfoldable pub flash : List String → Exec State (Unit {0})
    flash macs = get_inventory N >>= λ inv. flash_macs macs inv [] >>= cycle_flashed
