-- ===== src/N3000/Bmc.antt =====
-- The output of `fpgainfo bmc`: `getFPGAInventory` of N3000/pkg/daemon/fpgamanager.go and
-- `getN3000Devices` of fortvillemanager.go.
pub mod Laws
use openshift_operator.Base.{
  Bool, true, false, String, List, [], ◌∷◌, ◌==◌, Option, none, some, pos, atoi_ignoring, split,
  Exec, pure, ◌>>=◌, if◌then◌else◌,
}
use openshift_operator.Api.Fpga.{N3000FpgaStatus}
use openshift_operator.Regexp.{label_line, submatches2}
use openshift_operator.N3000.{Node, run_exec}

abbrev pub fpga_info_path : String
fpga_info_path = "fpgainfo"

abbrev pub pci_label : String
pci_label = "PCIe s:b:d.f"

abbrev pub sensors_title : String
sensors_title = "//****** BMC SENSORS ******//"

-- `bmcRegex.FindStringSubmatch(line)`
unfoldable pub bmc_line : String → Option (String × String)
bmc_line line = submatches2 label_line line

abbrev pub empty_device : N3000FpgaStatus
empty_device = record {
  pci_addr = "";
  device_id = "";
  bitstream_id = "";
  bitstream_version = "";
  numa_node = pos 0;
}

-- The switch on the label of a line.
unfoldable pub set_label : String → String → N3000FpgaStatus → N3000FpgaStatus
set_label label value dev =
    if label == pci_label
    then record dev { pci_addr = value }
    else if label == "Device Id"
    then record dev { device_id = value }
    else if label == "Bitstream Id"
    then record dev { bitstream_id = value }
    else if label == "Bitstream Version"
    then record dev { bitstream_version = value }
    else if label == "Numa Node"
    then record dev { numa_node = atoi_ignoring value }
    else dev

-- The loop over the lines of a device: `dev` and `pciFound`.
unfoldable pub read_lines : List String → N3000FpgaStatus × Bool → N3000FpgaStatus × Bool
read_lines [] (dev, pci_found) = (dev, pci_found)
read_lines (line ∷ lines) (dev, pci_found) = elim (bmc_line line) [
  | none ↦ read_lines lines (dev, pci_found)
  | some (label, value) ↦
      read_lines lines (set_label label value dev, if label == pci_label then true else pci_found)
]

-- The loop over the devices.
unfoldable pub read_devices : List String → List N3000FpgaStatus
read_devices [] = []
read_devices (output ∷ outputs) =
    let rest = read_devices outputs in
    let (dev, pci_found) = read_lines (split output "\n") (empty_device, false) in
    if pci_found then dev ∷ rest else rest

-- The first line of a device with the label of a PCI address.
unfoldable pub first_pci : List String → Option String
first_pci [] = none
first_pci (line ∷ lines) = elim (bmc_line line) [
  | none ↦ first_pci lines
  | some (label, value) ↦
      let rest = first_pci lines in if label == pci_label then some value else rest
]

unfoldable pub read_pcis : List String → List String
read_pcis [] = []
read_pcis (output ∷ outputs) = elim (first_pci (split output "\n")) [
  | none ↦ read_pcis outputs
  | some pci ↦ pci ∷ read_pcis outputs
]

module _ (N : Node) where
  -- `fpgaInfoExec(exec.Command(fpgaInfoPath, "bmc"), log, false)`
  abbrev pub fpga_info_bmc : Exec N.State String
  fpga_info_bmc = run_exec N fpga_info_path ("bmc" ∷ []) false

  unfoldable pub get_fpga_inventory : Exec N.State (List N3000FpgaStatus)
  get_fpga_inventory = fpga_info_bmc >>= λ output. pure (read_devices (split output sensors_title))

  unfoldable pub get_n3000_devices : Exec N.State (List String)
  get_n3000_devices = fpga_info_bmc >>= λ output. pure (read_pcis (split output sensors_title))
