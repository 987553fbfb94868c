-- ===== src/N3000/Bmc/Laws.antt =====
-- The two readers of the output of `fpgainfo bmc`, for the FPGAs and for the cards, side by side.
use openshift_operator.Base.{
  ◌≤◌, ◌≡◌, refl, ap, arith, Bool, true, false, String, List, [], ◌∷◌, map, All, length, ◌==◌,
  Option, none, some, split, ok, if◌then◌else◌, Bool-cases, inl, inr,
}
use openshift_operator.Api.Fpga.{N3000FpgaStatus}
use openshift_operator.N3000.{Node}
use openshift_operator.N3000.Bmc.{
  bmc_line, pci_label, sensors_title, empty_device, set_label, read_lines, read_devices, first_pci,
  read_pcis, fpga_info_bmc, get_fpga_inventory, get_n3000_devices,
}

-- The values of the lines with the label of a PCI address.
unfoldable pub pci_values : List String → List String
pci_values [] = []
pci_values (line ∷ lines) = elim (bmc_line line) [
  | none ↦ pci_values lines
  | some (label, value) ↦
      let rest = pci_values lines in if label == pci_label then value ∷ rest else rest
]

last_or : String → List String → String
last_or v [] = v
last_or v (x ∷ xs) = last_or x xs

some_value : Bool → List String → Bool
some_value b [] = b
some_value b (x ∷ xs) = true

some_value-true : (xs : List String) → some_value true xs ≡ true
unfolding some_value
some_value-true [] = refl
some_value-true (x ∷ xs) = refl

-- What the loop over the lines makes of the address of a device, and whether it found one.
abbrev Reads : List String → Type 0
Reads lines =
    (dev : N3000FpgaStatus) (b : Bool)
    → ((read_lines lines (dev, b)).0.pci_addr ≡ last_or dev.pci_addr (pci_values lines))
      × ((read_lines lines (dev, b)).1 ≡ some_value b (pci_values lines))

read_lines-Reads : (lines : List String) → Reads lines
unfolding set_label read_lines pci_values last_or some_value
read_lines-Reads [] dev b = (refl, refl)
read_lines-Reads (line ∷ lines) dev b = by_match (bmc_line line) refl (read_lines-Reads lines)
  where
    by_match :
        (o : Option (String × String))
        → bmc_line line ≡ o
        → Reads lines
        → ((read_lines (line ∷ lines) (dev, b)).0.pci_addr
            ≡ last_or dev.pci_addr (pci_values (line ∷ lines)))
          × ((read_lines (line ∷ lines) (dev, b)).1 ≡ some_value b (pci_values (line ∷ lines)))
    by_match none e ih = ground (arith, e, ih dev b)
    by_match (some (label, value)) e ih = elim (Bool-cases (label == pci_label)) [
      | inl h ↦
          ground
            (arith, e, h, ih (set_label label value dev) true, some_value-true (pci_values lines))
      | inr h ↦ ground (arith, e, h, ih (set_label label value dev) b)
    ]

first_pci-pci_values :
    (lines : List String)
    → first_pci lines ≡ elim (pci_values lines) [ [] ↦ none | v ∷ vs ↦ some v ]
unfolding first_pci pci_values
first_pci-pci_values [] = refl
first_pci-pci_values (line ∷ lines) = ground (arith, first_pci-pci_values lines)

-- The section of a device, whose lines give at most one PCI address.
unfoldable pub OnePci : String → Type 0
OnePci section = length (pci_values (split section "\n")) ≤ 1

read_devices-read_pcis :
    (outputs : List String)
    → All OnePci outputs
    → map (λ (d : N3000FpgaStatus). d.pci_addr) (read_devices outputs) ≡ read_pcis outputs
unfolding read_devices read_pcis OnePci last_or some_value
read_devices-read_pcis [] all = refl
read_devices-read_pcis (output ∷ outputs) (one, rest) =
    by_values (pci_values (split output "\n")) refl (read_devices-read_pcis outputs rest)
  where
    by_values :
        (vs : List String)
        → pci_values (split output "\n") ≡ vs
        → map (λ (d : N3000FpgaStatus). d.pci_addr) (read_devices outputs) ≡ read_pcis outputs
        → map (λ (d : N3000FpgaStatus). d.pci_addr) (read_devices (output ∷ outputs))
          ≡ read_pcis (output ∷ outputs)
    by_values [] e ih = ground (
      arith,
      e,
      ih,
      read_lines-Reads (split output "\n") empty_device false,
      first_pci-pci_values (split output "\n"),
    )
    by_values (v ∷ []) e ih = ground (
      arith,
      e,
      ih,
      read_lines-Reads (split output "\n") empty_device false,
      first_pci-pci_values (split output "\n"),
    )
    by_values (v ∷ (w ∷ ws)) e ih = absurd (ground (arith, ap length e, one))

-- Where the command succeeds and no section of its output gives two PCI addresses, the inventory of the
-- FPGAs and the list of the cards are both obtained, and the cards are the addresses of the
-- inventory, in its order.
pub get_n3000_devices-get_fpga_inventory :
    (N : Node) (s t : N.State) (output : String)
    → fpga_info_bmc N s ≡ (ok output, t)
    → All OnePci (split output sensors_title)
    → (inventory : List N3000FpgaStatus) × (get_fpga_inventory N s ≡ (ok inventory, t))
      × (get_n3000_devices N s ≡ (ok (map (λ d. d.pci_addr) inventory), t))
unfolding get_fpga_inventory get_n3000_devices
get_n3000_devices-get_fpga_inventory N s t output ran one = (
  read_devices (split output sensors_title),
  ground (arith, ran),
  ground (arith, ran, read_devices-read_pcis (split output sensors_title) one),
)
