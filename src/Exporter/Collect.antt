-- ===== src/Exporter/Collect.antt =====
-- prometheus_fpgainfo_exporter/main.go: the collector and the metrics that it sends. The command, the
-- order of the entries of a map and the check of the names of labels are parameters.
use Prim.Native.String.{String}
use openshift_operator.Base.{
  Bool, true, false, ◌&&◌, ◌<>◌, List, [], ◌∷◌, ◌==◌, eqb, length, map, split, lookup, Option, none,
  some, Floats, Exec, pure, raise, handle, ◌>>=◌, if◌then◌else◌,
}
use openshift_operator.Exporter.{Metric, DeviceBmcInfo, read_sections}

-- What the exporter uses of its host: the path of `fpgainfo` from the command line, a command with one
-- argument, the order in which a loop goes through a map, and whether `prometheus.NewDesc` takes the names of labels.
pub record Env : Type 1 where
  pub State : Type 0
  pub floats : Floats
  pub fpga_info_path : String
  pub combined_output : String → String → Exec State String
  pub range : (A : Type 0) → State → List (String × A) → List (String × A)
  pub is_valid_desc : List String → Bool

-- `prometheus.Desc`, without constant labels
pub record Desc : Type 0 where
  pub name : String
  pub help : String
  pub variable_labels : List String

pub record FpgaInfoCollector : Type 0 where
  pub temperature_desc : Desc
  pub power_desc : Desc
  pub current_desc : Desc
  pub voltage_desc : Desc
  pub qualitative_desc : Desc
  pub qualitative_labels : List String

abbrev pub component_labels : List String
component_labels = "pci" ∷ "component" ∷ []

-- The collector that `NewFpgaInfoCollector` returns, with the labels that it has found.
unfoldable pub collector_with : List String → FpgaInfoCollector
collector_with bmc_labels = record {
  qualitative_labels = bmc_labels;
  temperature_desc = record {
    name = "fpgainfo_temperature_celsius";
    help = "fpgainfo temperature metrics. 'N/A' are converted into -1.";
    variable_labels = component_labels;
  };
  power_desc = record {
    name = "fpgainfo_power_watts";
    help = "fpgainfo power metrics";
    variable_labels = component_labels;
  };
  current_desc = record {
    name = "fpgainfo_current_amps";
    help = "fpgainfo current metrics";
    variable_labels = component_labels;
  };
  voltage_desc = record {
    name = "fpgainfo_voltage_volts";
    help =
        "fpgainfo voltage metrics. "
        <> "dots (.) are substituted with underscore, e.g. 1_2v (1.2V) and 12v_aux (12V Aux).";
    variable_labels = component_labels;
  };
  qualitative_desc = record {
    name = "fpgainfo_bmc_info";
    help = "fpgainfo qualitative metrics such as Bitstream ID, Device ID, etc.";
    variable_labels = bmc_labels;
  };
}

-- What `Collect` does: the metrics that it sends, and whether it panics after them.
pub record Collected (Float : Type 0) : Type 0 where
  pub sent : List (Metric Float)
  pub panics : Bool

module _ (E : Env) where
  open E use {State, floats}
  open floats use {Float}

  unfoldable pub run_fpga_info : String → Exec State String
  run_fpga_info command = handle (E.combined_output E.fpga_info_path command) pure raise

  unfoldable pub get_bmc_info : Exec State (List (String × DeviceBmcInfo Float))
  get_bmc_info = run_fpga_info "bmc" >>= λ output.
      pure (read_sections floats (split output "Board Management Controller") [])

  -- The labels of the device that the loop meets first.
  unfoldable pub first_labels : State → List (String × DeviceBmcInfo Float) → List String
  first_labels s [] = []
  first_labels s ((pci, device) ∷ devices) = map (λ p. p.0) (E.range String s device.qualitative)

  -- The collector is nil where there is an error.
  unfoldable pub new_fpga_info_collector : State → Option FpgaInfoCollector × State
  new_fpga_info_collector =
      handle get_bmc_info
        (λ devices s. (
          some (collector_with ("pci" ∷ first_labels s (E.range (DeviceBmcInfo Float) s devices))),
          s,
        ))
        (λ e s. (none, s))

  -- The values of the labels: one that the device does not have is left out.
  unfoldable pub label_values : String → DeviceBmcInfo Float → List String → List String
  label_values pci device [] = []
  label_values pci device (label ∷ labels) =
      let rest = label_values pci device labels in
      if label == "pci"
      then pci ∷ rest
      else elim (lookup label device.qualitative) [ none ↦ rest | some value ↦ value ∷ rest ]

  -- `sendMetricToChannel`, with what is sent after it: `MustNewConstMetric` panics where the names
  -- of the labels are not valid or are not as many as the values.
  unfoldable pub send_metric_to_channel :
      Desc → Float → List String → Collected Float → Collected Float
  send_metric_to_channel desc value label_values rest =
      if E.is_valid_desc desc.variable_labels
        && eqb (length desc.variable_labels) (length label_values)
      then (let metric : Metric Float = record {
        name = desc.name;
        value = value;
        labels = label_values;
      } in
          record rest { sent = metric ∷ rest.sent })
      else record { sent = []; panics = true }

  -- The loop over the values of a family.
  unfoldable pub send_family :
      Desc → String → List (String × Float) → Collected Float → Collected Float
  send_family desc pci [] rest = rest
  send_family desc pci ((name, value) ∷ values) rest =
      send_metric_to_channel desc value (pci ∷ name ∷ []) (send_family desc pci values rest)

  unfoldable pub send_device :
      FpgaInfoCollector → State → String → DeviceBmcInfo Float → Collected Float → Collected Float
  send_device c s pci device rest =
      let family : Desc → List (String × Float) → Collected Float → Collected Float =
        λ desc values. send_family desc pci (E.range Float s values) in
      send_metric_to_channel c.qualitative_desc (floats.whole 1)
        (label_values pci device c.qualitative_labels)
        (family c.temperature_desc device.temperatures (
          family c.voltage_desc device.voltages
            (family c.current_desc device.currents (family c.power_desc device.powers rest))))

  unfoldable pub send_devices :
      FpgaInfoCollector → State → List (String × DeviceBmcInfo Float) → Collected Float
  send_devices c s [] = record { sent = []; panics = false }
  send_devices c s ((pci, device) ∷ devices) = send_device c s pci device (send_devices c s devices)

  unfoldable pub collect : FpgaInfoCollector → State → Collected Float × State
  collect c =
      handle get_bmc_info
        (λ devices s. (send_devices c s (E.range (DeviceBmcInfo Float) s devices), s))
        (λ e s. (record { sent = []; panics = false }, s))
