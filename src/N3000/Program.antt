-- ===== src/N3000/Program.antt =====
-- N3000/pkg/daemon/fpgamanager.go: `FPGAManager`, which checks the addresses and the images of the
-- FPGAs of a node and programs them.
pub mod Laws
pub mod Commands
use openshift_operator.Base.{
  ℕ, suc, Bool, true, false, String, ◌<>◌, List, [], ◌∷◌, ◌==◌, itoa, Option, none, some, Error,
  failure, message, Result, ok, err, Exec, pure, raise, handle, ◌>>◌, if◌then◌else◌,
}
use openshift_operator.Api.Fpga.{N3000Fpga, N3000FpgaStatus, N3000NodeSpec}
use openshift_operator.N3000.{Node, run_exec_with_log}
use openshift_operator.N3000.Images.{get_image, create_folder}
use openshift_operator.N3000.Bmc.{get_fpga_inventory}
use openshift_operator.N3000.Temperature.{check_fpga_die_temperature}

abbrev pub fpga_user_image_subfolder_path : String
fpga_user_image_subfolder_path = "/n3000-workdir"

abbrev pub fpga_user_image_file : String
fpga_user_image_file = "/n3000-workdir/fpga"

-- The file of the image with a number.
unfoldable pub image_path : ℕ → String
image_path i = fpga_user_image_file <> (itoa i <> ".bin")

-- `errors.Wrap(err, text)`
abbrev pub wrap : String → Error → Error
wrap text e = failure (text <> (": " <> message e))

-- A list that may be nil, in a loop.
abbrev pub elements {ℓ} : {A : Type ℓ} → Option (List A) → List A
elements none = []
elements (some xs) = xs

-- Whether the inventory has the address.
unfoldable pub detected : String → List N3000FpgaStatus → Bool
detected pci [] = false
detected pci (d ∷ ds) = if pci == d.pci_addr then true else detected pci ds

-- The loop over the addresses of the resource.
unfoldable pub verify_detected : List N3000Fpga → List N3000FpgaStatus → Result (Unit {0})
verify_detected [] inventory = ok tt
verify_detected (f ∷ fs) inventory =
    if detected f.pci_addr inventory
    then verify_detected fs inventory
    else err (failure ("Unable to detect FPGA PCIAddr=" <> (f.pci_addr <> ": ")))

module _ (N : Node) where
  open N use {State}

  unfoldable pub verify_pci_addrs : List N3000Fpga → Exec State (Unit {0})
  verify_pci_addrs fpgas =
      handle (get_fpga_inventory N) (λ inventory s. (verify_detected fpgas inventory, s))
        (λ e. raise (failure ("Unable to get FPGA inventory before program err: " <> message e)))

  -- The loop of `verifyPreconditions`, from the FPGA with a number.
  unfoldable pub get_images : ℕ → List N3000Fpga → Exec State (Unit {0})
  get_images i [] = pure tt
  get_images i (f ∷ fs) =
      let rest = get_images (suc i) fs in
      check_fpga_die_temperature N f.pci_addr
      >> handle (get_image N (image_path i) f.user_image_url f.checksum) (λ _. rest)
          (λ e. raise (wrap "FPGA image error:" e))

  unfoldable pub verify_preconditions : N3000NodeSpec → Exec State (Unit {0})
  verify_preconditions spec =
      verify_pci_addrs (elements spec.fpga)
      >> (create_folder N fpga_user_image_subfolder_path >> get_images 0 (elements spec.fpga))

  unfoldable pub program_fpga : String → String → Bool → Exec State (Unit {0})
  program_fpga file pci_addr dry_run =
      run_exec_with_log N "fpgasupdate" (file ∷ pci_addr ∷ []) dry_run
      >> run_exec_with_log N "rsu" ("bmcimg" ∷ pci_addr ∷ []) dry_run

  -- The loop of `ProgramFPGAs`, from the FPGA with a number.
  unfoldable pub program_from : ℕ → List N3000Fpga → Bool → Exec State (Unit {0})
  program_from i [] dry_run = pure tt
  program_from i (f ∷ fs) dry_run =
      let rest = program_from (suc i) fs dry_run in
      check_fpga_die_temperature N f.pci_addr
      >> (program_fpga (image_path i) f.pci_addr dry_run >> rest)

  unfoldable pub program_fpgas : N3000NodeSpec → Exec State (Unit {0})
  program_fpgas spec = program_from 0 (elements spec.fpga) spec.dry_run
