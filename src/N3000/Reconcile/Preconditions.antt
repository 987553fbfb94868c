-- ===== src/N3000/Reconcile/Preconditions.antt =====
-- The checks before a flash, and the log of the commands that update or restart a card.
use openshift_operator.Base.{
  refl, ℕ, suc, not, ◌==◌, ◌<>◌, String, List, [], ◌∷◌, failure, pure, raise, handle, ◌>>◌, Keeps,
  handle-Keeps, bind-Keeps, then-Keeps, if-Keeps,
}
use openshift_operator.Api.Fpga.{N3000Fpga, N3000Fortville, N3000NodeSpec}
use openshift_operator.N3000.{Node}
use openshift_operator.N3000.Bmc.{fpga_info_bmc, get_fpga_inventory}
use openshift_operator.N3000.Images.{get_image, create_folder}
use openshift_operator.N3000.Images.Keeping.{FilesKeep, get_image-Keeps, create_folder-Keeps}
use openshift_operator.N3000.Nics.{get_inventory}
use openshift_operator.N3000.Temperature.{check_fpga_die_temperature}
use openshift_operator.N3000.Program.{
  elements, image_path, verify_detected, verify_pci_addrs, get_images,
  fpga_user_image_subfolder_path, wrap,
}
use openshift_operator.N3000.Program.Commands.{Logs, check-Keeps}
use openshift_operator.N3000.Flash.{
  nvm_install_dest, nvm_package_destination, install_nvmupdate, verify_macs, verify_paths,
  verify_image_paths, get_nvm_update,
}
use openshift_operator.N3000.Flash.DryRun.{get_inventory-Keeps, run_exec-Keeps}
use openshift_operator.N3000.Program
use openshift_operator.N3000.Flash

-- The preconditions run no command that changes the node.
module _ (N : Node) (L : Logs N) (F : FilesKeep N L.log) where
  open L use {log}

  pub get_fpga_inventory-Keeps : Keeps log (get_fpga_inventory N)
  unfolding get_fpga_inventory
  get_fpga_inventory-Keeps =
      bind-Keeps log (fpga_info_bmc N) _ (run_exec-Keeps N L _ _) (λ _ s. refl)

  verify_pci_addrs-Keeps : (fs : List N3000Fpga) → Keeps log (verify_pci_addrs N fs)
  unfolding verify_pci_addrs
  verify_pci_addrs-Keeps fs =
      handle-Keeps log (get_fpga_inventory N) (λ inventory s. (verify_detected fs inventory, s)) _
        get_fpga_inventory-Keeps (λ inventory s. refl) (λ e s. refl)

  get_images-Keeps : (i : ℕ) (fs : List N3000Fpga) → Keeps log (get_images N i fs)
  unfolding get_images
  get_images-Keeps i [] = λ s. refl
  get_images-Keeps i (f ∷ fs) =
      then-Keeps log (check_fpga_die_temperature N f.pci_addr)
        (handle (get_image N (image_path i) f.user_image_url f.checksum)
          (λ _. get_images N (suc i) fs) (λ e. raise (wrap "FPGA image error:" e)))
        (check-Keeps N L f.pci_addr)
        (handle-Keeps log (get_image N (image_path i) f.user_image_url f.checksum) _ _
          (get_image-Keeps N log F _ _ _) (λ u. get_images-Keeps (suc i) fs) (λ e s. refl))

  pub verify_fpga-Keeps : (spec : N3000NodeSpec) → Keeps log (Program.verify_preconditions N spec)
  unfolding Program.verify_preconditions
  verify_fpga-Keeps spec =
      then-Keeps log (verify_pci_addrs N (elements spec.fpga))
        (create_folder N fpga_user_image_subfolder_path >> get_images N 0 (elements spec.fpga))
        (verify_pci_addrs-Keeps (elements spec.fpga))
        (then-Keeps log (create_folder N fpga_user_image_subfolder_path)
          (get_images N 0 (elements spec.fpga)) (create_folder-Keeps N log F _)
          (get_images-Keeps 0 (elements spec.fpga)))

  install_nvmupdate-Keeps : Keeps log (install_nvmupdate N)
  unfolding install_nvmupdate
  install_nvmupdate-Keeps = then-Keeps log _ (pure tt) (run_exec-Keeps N L _ _) (λ s. refl)

  verify_paths-Keeps : (ps : List String) → Keeps log (verify_paths N ps)
  unfolding verify_paths
  verify_paths-Keeps [] = λ s. refl
  verify_paths-Keeps (p ∷ ps) =
      handle-Keeps log (N.is_symlink p) _ _ (F.is_symlink_keeps p)
        (λ link.
          if-Keeps log link (raise (failure ("Symbolic link detected in nvm package " <> p)))
            (verify_paths N ps) (λ s. refl) (verify_paths-Keeps ps))
        (λ e s. refl)

  get_nvm_update-Keeps : (f : N3000Fortville) → Keeps log (get_nvm_update N f)
  unfolding get_nvm_update verify_image_paths
  get_nvm_update-Keeps f =
      if-Keeps log (not (f.firmware_url == "")) _ (raise (failure "Empty Fortville.FirmwareURL"))
        (handle-Keeps log (get_image N nvm_package_destination f.firmware_url f.checksum) _ _
          (get_image-Keeps N log F _ _ _)
          (λ u.
            handle-Keeps log (install_nvmupdate N) _ _ install_nvmupdate-Keeps
              (λ v. verify_paths-Keeps _) (λ e s. refl))
          (λ e s. refl))
        (λ s. refl)

  pub verify_fortville-Keeps : (f : N3000Fortville) → Keeps log (Flash.verify_preconditions N f)
  unfolding Flash.verify_preconditions
  verify_fortville-Keeps f =
      if-Keeps log (f.firmware_url == "") (raise (failure "Empty Fortville.FirmwareURL")) _
        (λ s. refl)
        (bind-Keeps log (get_inventory N) _ (get_inventory-Keeps N L) (λ inv.
          then-Keeps log (λ s. (verify_macs f.macs inv, s))
            (create_folder N nvm_install_dest >> get_nvm_update N f) (λ s. refl)
            (then-Keeps log (create_folder N nvm_install_dest) (get_nvm_update N f)
              (create_folder-Keeps N log F nvm_install_dest) (get_nvm_update-Keeps f))))
