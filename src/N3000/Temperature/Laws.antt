-- ===== src/N3000/Temperature/Laws.antt =====
-- The theorems about the limit of the temperature and about the check.
use openshift_operator.Base.{
  not, ◌≡◌, arith, Bool, true, false, ◌||◌, ◌&&◌, String, List, [], ◌∷◌, ◌++◌, All, ◌==◌, Option,
  none, some, split, Result, ok, err, if◌then◌else◌, or_else,
}
use openshift_operator.N3000.{Node}
use openshift_operator.N3000.Bmc.{bmc_line, pci_label, sensors_title, fpga_info_bmc}
use openshift_operator.N3000.Temperature.{
  parameters_line, fpga_temperature_default_limit, fpga_temperature_bottom_range,
  fpga_temperature_top_range, limit_in_range, get_fpga_temperature_limit, pci_on_line,
  temperature_on_line, scan_lines, scan_devices, judge_temperature, check_fpga_die_temperature,
}

unfoldable pub is_ok : Result (Unit {0}) → Bool
is_ok (ok u) = true
is_ok (err e) = false

-- Whether a line gives the PCI address.
gives_pci : String → String → Bool
gives_pci pci line = elim (bmc_line line) [
  | none ↦ false
  | some (label, value) ↦ label == pci_label && pci == value
]

-- Whether one of the lines gives the PCI address.
unfoldable pub names_pci : String → List String → Bool
unfolding gives_pci
names_pci pci [] = false
names_pci pci (line ∷ lines) = gives_pci pci line || names_pci pci lines

-- The text that a line gives for the sensor 12, the temperature of the die.
die_on_line : String → Option String
die_on_line line = elim (parameters_line line) [
  | none ↦ none
  | some (id, value) ↦ if id == "(12)" then some value else none
]

-- The last of these texts.
unfoldable pub die_text : List String → Option String
unfolding die_on_line
die_text [] = none
die_text (line ∷ lines) = or_else (die_text lines) (die_on_line line)

module _ (N : Node) where
  open N use {floats}
  open floats use {Float, parse_float, lt}

  -- Where the default limit is between the bounds, so is every limit: it is neither less than the
  -- lower bound nor is the upper bound less than it, whatever the environment says.
  pub get_fpga_temperature_limit_bounded :
      lt (fpga_temperature_default_limit N) (fpga_temperature_bottom_range N) ≡ false
      → lt (fpga_temperature_top_range N) (fpga_temperature_default_limit N) ≡ false
      → (lt (get_fpga_temperature_limit N) (fpga_temperature_bottom_range N) ≡ false)
        × (lt (fpga_temperature_top_range N) (get_fpga_temperature_limit N) ≡ false)
  unfolding get_fpga_temperature_limit limit_in_range
  get_fpga_temperature_limit_bounded h k = ground (arith, h, k)

  temperature_of : Float → Option String → Float
  temperature_of t none = t
  temperature_of t (some v) = (parse_float v).0

  line_lem :
      (pci line : String) (b : Bool) (t : Float)
      → (pci_on_line N pci line b ≡ b || gives_pci pci line)
        × (temperature_on_line N line t ≡ temperature_of t (die_on_line line))
  unfolding pci_on_line temperature_on_line gives_pci die_on_line temperature_of
  line_lem pci line b t = ground arith

  scan_lines_lem :
      (pci : String) (lines : List String) (b : Bool) (t : Float)
      → scan_lines N pci lines (b, t)
        ≡ (b || names_pci pci lines, temperature_of t (die_text lines))
  unfolding scan_lines names_pci die_text temperature_of
  scan_lines_lem pci [] b t = ground arith
  scan_lines_lem pci (line ∷ lines) b t = ground (
    arith,
    line_lem pci line b t,
    scan_lines_lem pci lines (pci_on_line N pci line b) (temperature_on_line N line t),
  )

  -- The scan ends at the first section that gives the address, with the temperature that it gives.
  scan_devices_lem :
      (pci v section : String) (before after : List String) (t : Float)
      → All (λ x. names_pci pci (split x "\n") ≡ false) before
      → names_pci pci (split section "\n") ≡ true
      → die_text (split section "\n") ≡ some v
      → scan_devices N pci (before ++ (section ∷ after)) (false, t) ≡ (true, (parse_float v).0)
  unfolding scan_devices temperature_of
  scan_devices_lem pci v section [] after t all named read =
      ground (arith, scan_lines_lem pci (split section "\n") false t, named, read)
  scan_devices_lem pci v section (x ∷ before) after t (other, all) named read = ground (
    arith,
    scan_lines_lem pci (split x "\n") false t,
    other,
    scan_devices_lem pci v section before after (temperature_of t (die_text (split x "\n"))) all
        named read,
  )

  -- Where the command succeeds, the first section of its output that gives the address also gives the
  -- temperature of the die, with the text `v`: the check returns no error where the limit is not less
  -- than the number that `v` shows, and an error where it is.
  pub check_fpga_die_temperature_lem :
      (pci v section output : String) (before after : List String) (s t : N.State)
      → fpga_info_bmc N s ≡ (ok output, t)
      → split output sensors_title ≡ before ++ (section ∷ after)
      → All (λ x. names_pci pci (split x "\n") ≡ false) before
      → names_pci pci (split section "\n") ≡ true
      → die_text (split section "\n") ≡ some v
      → (is_ok (check_fpga_die_temperature N pci s).0
          ≡ not (lt (get_fpga_temperature_limit N) (parse_float v).0))
        × ((check_fpga_die_temperature N pci s).1 ≡ t)
  unfolding check_fpga_die_temperature judge_temperature is_ok
  check_fpga_die_temperature_lem pci v section output before after s t ran sections all named read =
      let scan = scan_devices_lem pci v section before after (floats.whole 0) all named read in
      (ground (arith, ran, sections, scan), ground (arith, ran))
