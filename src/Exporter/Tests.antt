-- ===== src/Exporter/Tests.antt =====
-- A host with two devices, of which one lacks a label, and the theorem at it.
use openshift_operator.Base.{
  ℕ, ◌≡◌, refl, true, String, [], ◌∷◌, pure, ok, atoi, itoa, ltb, none, some, split, to_lower,
  replace_char, put, lookup, Floats,
}
use openshift_operator.Regexp.{
  submatches2, match_all, match_repeat, after_one, extend, lazy, greedy, begin_piece, group_text,
  find_first, match_prefix,
}
use openshift_operator.Exporter.{
  DeviceBmcInfo, bmc_float_regex, pci_regex, sanitize_label, extract_words, extract_unit,
  extract_float_value, add_qualitative, add_to_family, add_value, add_sensor, read_info,
  new_device_bmc_info, read_sections,
}
use openshift_operator.Exporter.Collect.{
  Env, FpgaInfoCollector, run_fpga_info, get_bmc_info, first_labels, new_fpga_info_collector,
  collect,
}
use openshift_operator.Exporter.Laws.{has_labels, all_have, collect-panics}

-- Whole numbers stand for floating-point numbers.
abbrev floats : Floats
floats = record {
  Float = ℕ;
  parse_float = λ s. (atoi s, none);
  lt = ltb;
  whole = λ n. n;
  minus_one = 0;
  format = itoa;
}

abbrev output : String
output =
    "Board Management Controller 0000:1b:00.0\nId : 7\n( 1) Board Power : 67 Watts\nBoard Management Controller 0000:2b:00.0\n"

abbrev env : Env
env = record {
  State = Unit {0};
  floats = floats;
  fpga_info_path = "fpgainfo";
  combined_output = λ name arg. pure output;
  range = λ A s m. m;
  is_valid_desc = λ names. true;
}

abbrev first : DeviceBmcInfo ℕ
first = record {
  qualitative = ("id", "7") ∷ [];
  temperatures = [];
  voltages = [];
  currents = [];
  powers = ("board", 67) ∷ [];
}

abbrev second : DeviceBmcInfo ℕ
second = record { qualitative = []; temperatures = []; voltages = []; currents = []; powers = [] }

info_reads :
    get_bmc_info env tt ≡ (ok (("0000:1b:00.0", first) ∷ ("0000:2b:00.0", second) ∷ []), tt)
unfolding run_fpga_info get_bmc_info split read_sections find_first match_prefix pci_regex
    new_device_bmc_info read_info add_sensor add_qualitative add_value add_to_family
    extract_float_value extract_unit extract_words sanitize_label bmc_float_regex submatches2
    match_all match_repeat after_one extend lazy greedy begin_piece group_text to_lower replace_char
    put atoi
info_reads = refl

collect_example :
    (c : FpgaInfoCollector) × (new_fpga_info_collector env tt ≡ (some c, tt))
    × ((collect env c tt).0.panics ≡ true)
unfolding all_have has_labels lookup first_labels
collect_example = collect-panics env refl tt tt tt tt _ _ info_reads refl info_reads
