-- ===== src/Exporter/Laws.antt =====
-- When collecting the metrics panics.
use openshift_operator.Base.{
  ◌≤◌, ◌≡◌, refl, ◌∙◌, arith, Bool, true, not, ◌&&◌, ◌||◌, String, List, [], ◌∷◌, length, ◌==◌, eqb,
  lookup, is_some, some, ok, handle, branch,
}
use openshift_operator.Exporter.{DeviceBmcInfo}
use openshift_operator.Exporter.Collect.{
  Desc, FpgaInfoCollector, component_labels, collector_with, Collected, Env, get_bmc_info,
  first_labels, new_fpga_info_collector, label_values, send_metric_to_channel, send_family,
  send_device, send_devices, collect,
}

module _ {Float : Type 0} where
  -- Whether a device has a value for each of the labels; all have the label of the PCI address.
  unfoldable pub has_labels : DeviceBmcInfo Float → List String → Bool
  has_labels device [] = true
  has_labels device (label ∷ labels) =
      (label == "pci" || is_some (lookup label device.qualitative)) && has_labels device labels

  -- Whether each of the devices does.
  unfoldable pub all_have : List String → List (String × DeviceBmcInfo Float) → Bool
  all_have labels [] = true
  all_have labels ((pci, device) ∷ devices) = has_labels device labels && all_have labels devices

module _ (E : Env) where
  open E use {State, floats}
  open floats use {Float}

  label_values-length :
      (pci : String) (device : DeviceBmcInfo Float) (labels : List String)
      → (length (label_values E pci device labels) ≤ length labels)
        × (eqb (length labels) (length (label_values E pci device labels))
            ≡ has_labels device labels)
  unfolding label_values has_labels
  label_values-length pci device [] = ground arith
  label_values-length pci device (label ∷ labels) =
      ground (arith, label_values-length pci device labels)

  module _ (valid : E.is_valid_desc component_labels ≡ true) where
    send_family-panics :
        (desc : Desc) (pci : String) (values : List (String × Float)) (rest : Collected Float)
        → desc.variable_labels ≡ component_labels
        → (send_family E desc pci values rest).panics ≡ rest.panics
    unfolding send_family send_metric_to_channel
    send_family-panics desc pci [] rest labels = refl
    send_family-panics desc pci ((name, value) ∷ values) rest labels =
        ground (arith, valid, labels, send_family-panics desc pci values rest labels)

    -- The collector with some labels.
    module _ (labels : List String) (valid_labels : E.is_valid_desc labels ≡ true) where
      abbrev c : FpgaInfoCollector
      c = collector_with labels

      families-panics :
          (pci : String) (ts vs cs ps : List (String × Float)) (rest : Collected Float)
          → (send_family E c.temperature_desc pci ts (
              send_family E c.voltage_desc pci vs (
                send_family E c.current_desc pci cs
                  (send_family E c.power_desc pci ps rest)))).panics
            ≡ rest.panics
      unfolding collector_with
      families-panics pci ts vs cs ps rest =
          send_family-panics c.temperature_desc pci ts _ refl
          ∙ send_family-panics c.voltage_desc pci vs _ refl
          ∙ send_family-panics c.current_desc pci cs _ refl
          ∙ send_family-panics c.power_desc pci ps rest refl

      send_devices-panics :
          (s : State) (devices : List (String × DeviceBmcInfo Float))
          → (send_devices E c s devices).panics ≡ not (all_have labels devices)
      unfolding send_devices send_device send_metric_to_channel collector_with all_have
      send_devices-panics s [] = refl
      send_devices-panics s ((pci, device) ∷ devices) =
          let rest = send_devices E c s devices in
          let kept =
            families-panics pci (E.range Float s device.temperatures)
              (E.range Float s device.voltages) (E.range Float s device.currents)
              (E.range Float s device.powers) rest in
          ground (
            arith,
            valid_labels,
            label_values-length pci device labels,
            send_devices-panics s devices,
            kept,
          )

    -- The collector that is made from what the command says at one time has the labels of the device
    -- that comes first then. Where their names are valid, and the information can be read at a later
    -- time, `Collect` of this collector panics just where one of the devices has no value for one of
    -- these labels then, in whatever order the devices come.
    pub collect-panics :
        (s t u v : State) (old devices : List (String × DeviceBmcInfo Float))
        → get_bmc_info E s ≡ (ok old, t)
        → E.is_valid_desc ("pci" ∷ first_labels E t (E.range (DeviceBmcInfo Float) t old)) ≡ true
        → get_bmc_info E u ≡ (ok devices, v)
        → (c : FpgaInfoCollector) × (new_fpga_info_collector E s ≡ (some c, t))
          × ((collect E c u).0.panics
              ≡ not (
                  all_have
                    ("pci" ∷ first_labels E t (E.range (DeviceBmcInfo Float) t old))
                    (E.range (DeviceBmcInfo Float) v devices)))
    unfolding new_fpga_info_collector collect
    collect-panics s t u v old devices made h read =
        let labels = "pci" ∷ first_labels E t (E.range (DeviceBmcInfo Float) t old) in
        (
          collector_with labels,
          rw (made, handle, branch) refl,
          rw (read, handle, branch) (send_devices-panics labels h v _),
        )
