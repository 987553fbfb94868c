-- ===== src/Exporter.antt =====
-- prometheus_fpgainfo_exporter/main.go: the exporter of what `fpgainfo bmc` prints, as metrics. Here is
-- what it reads of the output; floating-point numbers are a parameter.
pub mod Collect
pub mod Laws
mod Tests
use Prim.Native.String.{String}
use openshift_operator.Base.{
  not, ◌||◌, ◌<>◌, List, [], ◌∷◌, ◌==◌, split, replace_char, to_lower, str_contains, put, Option,
  none, some, Floats, Error, if◌then◌else◌,
}
use openshift_operator.Regexp.{
  Piece, piece, once, star, plus, plus_lazy, is_space, is_any, is_char, is_digit, in_range,
  label_line, submatches2, find_first,
}

-- `^\(\s*[0-9]*\)\s+(.+?)(?:\s*:\s*)(.+)$`
unfoldable pub bmc_float_regex : List Piece
bmc_float_regex =
    piece (is_char b'(') once 0
    ∷ piece is_space star 0
    ∷ piece is_digit star 0
    ∷ piece (is_char b')') once 0
    ∷ piece is_space plus 0
    ∷ piece is_any plus_lazy 1
    ∷ piece is_space star 0
    ∷ piece (is_char b':') once 0
    ∷ piece is_space star 0
    ∷ piece is_any plus 2
    ∷ []

abbrev hex : Piece
hex = piece (λ c. in_range b'a' b'f' c || (in_range b'A' b'F' c || is_digit c)) once 0

abbrev colon : Piece
colon = piece (is_char b':') once 0

-- `[a-fA-F0-9]{4}:[a-fA-F0-9]{2}:[01][a-fA-F0-9]\.[0-7]`
unfoldable pub pci_regex : List Piece
pci_regex =
    hex
    ∷ hex
    ∷ hex
    ∷ hex
    ∷ colon
    ∷ hex
    ∷ hex
    ∷ colon
    ∷ piece (in_range b'0' b'1') once 0
    ∷ hex
    ∷ piece (is_char b'.') once 0
    ∷ piece (in_range b'0' b'7') once 0
    ∷ []

unfoldable pub sanitize_label : String → String
sanitize_label s =
    replace_char b'.' "_" (replace_char b':' "_" (replace_char b' ' "_" (to_lower s)))

-- `extractUnit`, on the words of a text: all but the last, and the last.
unfoldable pub extract_words : List String → String × String
extract_words [] = ("", "")
extract_words (w ∷ []) = ("", w)
extract_words (w ∷ (v ∷ [])) = (w, v)
extract_words (w ∷ (v ∷ (u ∷ us))) =
    let (value, unit) = extract_words (v ∷ (u ∷ us)) in (w <> (" " <> value), unit)

unfoldable pub extract_unit : String → String × String
extract_unit s = extract_words (split s " ")

-- A metric that is sent: its name, its value and the values of its labels.
pub record Metric (Float : Type 0) : Type 0 where
  pub name : String
  pub value : Float
  pub labels : List String

-- `DeviceBMCInfo`
pub record DeviceBmcInfo (Float : Type 0) : Type 0 where
  pub qualitative : List (String × String)
  pub temperatures : List (String × Float)
  pub voltages : List (String × Float)
  pub currents : List (String × Float)
  pub powers : List (String × Float)

module _ (F : Floats) where
  open F use {Float}

  unfoldable pub extract_float_value : String → Float × Option Error
  extract_float_value s =
      if s == "N/A" then (F.minus_one, none) else F.parse_float (extract_unit s).0

  abbrev pub no_info : DeviceBmcInfo Float
  no_info = record {
    qualitative = [];
    temperatures = [];
    voltages = [];
    currents = [];
    powers = [];
  }

  -- The first part of a turn of the loop of `NewDeviceBMCInfo`.
  unfoldable pub add_qualitative :
      Option (String × String) → DeviceBmcInfo Float → DeviceBmcInfo Float
  add_qualitative none d = d
  add_qualitative (some (name, value)) d =
      let label = sanitize_label name in
      if not (str_contains label "pci")
      then record d { qualitative = put label value d.qualitative }
      else d

  unfoldable pub add_to_family : String → String → Float → DeviceBmcInfo Float → DeviceBmcInfo Float
  add_to_family family label v d =
      if family == "Power"
      then record d { powers = put label v d.powers }
      else if family == "Voltage"
      then record d { voltages = put label v d.voltages }
      else if family == "Current"
      then record d { currents = put label v d.currents }
      else if family == "Temperature"
      then record d { temperatures = put label v d.temperatures }
      else d

  -- What a value does, unless it could not be parsed.
  unfoldable pub add_value :
      String → String → Float × Option Error → DeviceBmcInfo Float → DeviceBmcInfo Float
  add_value family label (v, some e) d = d
  add_value family label (v, none) d = add_to_family family label v d

  -- The second part of a turn.
  unfoldable pub add_sensor : Option (String × String) → DeviceBmcInfo Float → DeviceBmcInfo Float
  add_sensor none d = d
  add_sensor (some (text, value)) d =
      let (name, family) = extract_unit text in
      add_value family (sanitize_label name) (extract_float_value value) d

  unfoldable pub read_info : List String → DeviceBmcInfo Float → DeviceBmcInfo Float
  read_info [] d = d
  read_info (line ∷ lines) d = read_info lines (
      add_sensor (submatches2 bmc_float_regex line)
        (add_qualitative (submatches2 label_line line) d))

  unfoldable pub new_device_bmc_info : String → DeviceBmcInfo Float
  new_device_bmc_info output = read_info (split output "\n") no_info

-- `GetBMCInfo`, on the sections of the output: a section without a PCI address is left out.
unfoldable pub read_sections :
    (F : Floats)
    → List String
    → List (String × DeviceBmcInfo F.Float)
    → List (String × DeviceBmcInfo F.Float)
read_sections F [] devices = devices
read_sections F (section ∷ sections) devices = elim (find_first pci_regex section) [
  | none ↦ read_sections F sections devices
  | some pci ↦ read_sections F sections (put pci (new_device_bmc_info F section) devices)
]
