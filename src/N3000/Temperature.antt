-- ===== src/N3000/Temperature.antt =====
-- N3000/pkg/daemon/fpgamanager.go: `getFPGATemperatureLimit` and `checkFPGADieTemperature`.
pub mod Laws
use openshift_operator.Base.{
  Bool, true, false, ◌||◌, String, ◌<>◌, List, [], ◌∷◌, ◌==◌, Option, none, some, split, Error,
  failure, Result, ok, err, Exec, ◌>>=◌, if◌then◌else◌,
}
use openshift_operator.Regexp.{
  Piece, piece, once, star, plus, plus_lazy, is_space, is_any, is_char, is_digit, match_all,
  group_text,
}
use openshift_operator.N3000.{Node}
use openshift_operator.N3000.Bmc.{bmc_line, pci_label, sensors_title, fpga_info_bmc}

abbrev pub env_temperature_limit_name : String
env_temperature_limit_name = "FPGA_DIE_TEMP_LIMIT"

-- `^([()0-9]+?) (.+)(?:\s*:\s)(.+) (.+)$`
abbrev pub bmc_parameters_line : List Piece
bmc_parameters_line =
    piece (λ c. is_digit c || (is_char b'(' c || is_char b')' c)) plus_lazy 1
    ∷ piece (is_char b' ') once 0
    ∷ piece is_any plus 2
    ∷ piece is_space star 0
    ∷ piece (is_char b':') once 0
    ∷ piece is_space once 0
    ∷ piece is_any plus 3
    ∷ piece (is_char b' ') once 0
    ∷ piece is_any plus 4
    ∷ []

-- The first and the third group of `bmcParametersRegex.FindStringSubmatch(line)`
unfoldable pub parameters_line : String → Option (String × String)
parameters_line line = elim (match_all bmc_parameters_line line) [
  | none ↦ none
  | some ts ↦ some (group_text 1 bmc_parameters_line ts, group_text 3 bmc_parameters_line ts)
]

module _ (N : Node) where
  open N use {floats}
  open floats use {Float, parse_float, lt, whole, format}

  abbrev pub fpga_temperature_default_limit : Float
  fpga_temperature_default_limit = whole 85

  abbrev pub fpga_temperature_bottom_range : Float
  fpga_temperature_bottom_range = whole 40

  abbrev pub fpga_temperature_top_range : Float
  fpga_temperature_top_range = whole 95

  -- The test of a limit that the environment gives.
  unfoldable pub limit_in_range : Float × Option Error → Float
  limit_in_range (temperature, some e) = fpga_temperature_default_limit
  limit_in_range (temperature, none) =
      if lt temperature fpga_temperature_bottom_range || lt fpga_temperature_top_range temperature
      then fpga_temperature_default_limit
      else temperature

  unfoldable pub get_fpga_temperature_limit : Float
  get_fpga_temperature_limit =
      let val = N.getenv env_temperature_limit_name in
      if val == "" then fpga_temperature_default_limit else limit_in_range (parse_float val)

  -- What one line does to `pciFound` and to `fpgaDieTemperature`.
  unfoldable pub pci_on_line : String → String → Bool → Bool
  pci_on_line pci_addr line pci_found = elim (bmc_line line) [
    | none ↦ pci_found
    | some (label, value) ↦
        if label == pci_label then (if pci_addr == value then true else pci_found) else pci_found
  ]

  unfoldable pub temperature_on_line : String → Float → Float
  temperature_on_line line t = elim (parameters_line line) [
    | none ↦ t
    | some (id, value) ↦ if id == "(12)" then (parse_float value).0 else t
  ]

  unfoldable pub scan_lines : String → List String → Bool × Float → Bool × Float
  scan_lines pci_addr [] (pci_found, t) = (pci_found, t)
  scan_lines pci_addr (line ∷ lines) (pci_found, t) =
      scan_lines pci_addr lines (pci_on_line pci_addr line pci_found, temperature_on_line line t)

  -- The temperature is not reset from one device to the next.
  unfoldable pub scan_devices : String → List String → Bool × Float → Bool × Float
  scan_devices pci_addr [] (pci_found, t) = (pci_found, t)
  scan_devices pci_addr (output ∷ outputs) (pci_found, t) =
      let (found', t') = scan_lines pci_addr (split output "\n") (pci_found, t) in
      let rest = scan_devices pci_addr outputs (found', t') in if found' then (found', t') else rest

  -- What `checkFPGADieTemperature` concludes.
  unfoldable pub judge_temperature : String → Bool × Float → Result (Unit {0})
  judge_temperature pci_addr (pci_found, t) =
      let limit = get_fpga_temperature_limit in
      if pci_found
      then (if lt limit t
          then err (
              failure (
                "FPGA temperature: "
                <> (format t
                    <> (", exceeded limit: " <> (format limit <> (", on PCIAddr: " <> pci_addr))))))
          else ok tt)
      else err (failure ("Not found PCIAddr: " <> pci_addr))

  unfoldable pub check_fpga_die_temperature : String → Exec N.State (Unit {0})
  check_fpga_die_temperature pci_addr = fpga_info_bmc N >>= λ output s. (
    judge_temperature pci_addr
        (scan_devices pci_addr (split output sensors_title) (false, whole 0)),
    s,
  )
