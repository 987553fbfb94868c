-- ===== src/Fec/Queues.antt =====
-- sriov-fec/pkg/daemon/bbdevconfig.go: the queue configuration that the pf-bb-config tool reads.
-- `SetValue` sets the keys in the order of the code, so a file is its sections in the order of
-- `NewSections`, each with its keys.
pub mod Laws
use openshift_operator.Base.{
  ℕ, ◌+◌, Bool, ◌||◌, String, ◌<>◌, List, [], ◌∷◌, ◌==◌, ltb, Option, none, some, itoa,
  if◌then◌else◌, failure, message, Exec, pure, raise, handle, ◌>>=◌,
}
use openshift_operator.Api.Sriov.{
  UplinkDownlinkQueues, UplinkDownlink, N3000BbDevConfig, QueueGroupConfig, Acc100BbDevConfig,
  BbDevConfig,
}
use openshift_operator.Fec.{Machine, IniSection, exec_cmd}

abbrev pub max_queue_groups : ℕ
max_queue_groups = 8

abbrev pub pf_config_app_filepath : String
pf_config_app_filepath = "/sriov_workdir/pf_bb_config"

abbrev comma : String → String → String
comma a b = a <> ("," <> b)

-- `String` of the queues
unfoldable pub queues_string : UplinkDownlinkQueues → String
queues_string q = comma (itoa q.vf0) (
    comma (itoa q.vf1) (
      comma (itoa q.vf2) (
        comma (itoa q.vf3)
          (comma (itoa q.vf4) (comma (itoa q.vf5) (comma (itoa q.vf6) (itoa q.vf7)))))))

abbrev mode_value : Bool → String
mode_value pf_mode = if pf_mode then "1" else "0"

abbrev mode_section : Bool → IniSection
mode_section pf_mode = record {
  section = "MODE";
  entries = ("pf_mode_en", mode_value pf_mode) ∷ [];
}

unfoldable pub link_section : String → UplinkDownlink → IniSection
link_section name l = record {
  section = name;
  entries =
      ("bandwidth", itoa l.bandwidth)
      ∷ ("load_balance", itoa l.load_balance)
      ∷ ("vfqmap", queues_string l.queues)
      ∷ [];
}

unfoldable pub n3000_file : N3000BbDevConfig → List IniSection
n3000_file nc =
    mode_section nc.pf_mode
    ∷ link_section "UL" nc.uplink
    ∷ link_section "DL" nc.downlink
    ∷ record { section = "FLR"; entries = ("flr_time_out", itoa nc.flr_time_out) ∷ [] }
    ∷ []

unfoldable pub group_section : String → QueueGroupConfig → IniSection
group_section name g = record {
  section = name;
  entries =
      ("num_qgroups", itoa g.num_queue_groups)
      ∷ ("num_aqs_per_groups", itoa g.num_aqs_per_groups)
      ∷ ("aq_depth_log2", itoa g.aq_depth_log2)
      ∷ [];
}

unfoldable pub acc100_file : Acc100BbDevConfig → List IniSection
acc100_file nc =
    mode_section nc.pf_mode
    ∷ record { section = "VFBUNDLES"; entries = ("num_vf_bundles", itoa nc.num_vf_bundles) ∷ [] }
    ∷ record { section = "MAXQSIZE"; entries = ("max_queue_size", itoa nc.max_queue_size) ∷ [] }
    ∷ group_section "QUL4G" nc.uplink4g
    ∷ group_section "QDL4G" nc.downlink4g
    ∷ group_section "QUL5G" nc.uplink5g
    ∷ group_section "QDL5G" nc.downlink5g
    ∷ []

unfoldable pub total_queue_groups : Acc100BbDevConfig → ℕ
total_queue_groups nc =
    (nc.uplink4g.num_queue_groups + nc.downlink4g.num_queue_groups)
    + (nc.uplink5g.num_queue_groups + nc.downlink5g.num_queue_groups)

module _ (M : Machine) where
  abbrev save : List IniSection → String → Exec M.State (Unit {0})
  save cfg file =
      handle (M.save_to cfg file) (λ _. pure tt)
        (λ _. raise (failure ("Unable to write config to file: " <> file)))

  unfoldable pub generate_n3000_bb_dev_config_file :
      Option N3000BbDevConfig → String → Exec M.State (Unit {0})
  generate_n3000_bb_dev_config_file none file = raise (failure "received nil N3000BBDevConfig")
  generate_n3000_bb_dev_config_file (some nc) file = save (n3000_file nc) file

  unfoldable pub generate_acc100_bb_dev_config_file :
      Option Acc100BbDevConfig → String → Exec M.State (Unit {0})
  generate_acc100_bb_dev_config_file none file = raise (failure "received nil ACC100BBDevConfig")
  generate_acc100_bb_dev_config_file (some nc) file =
      if ltb max_queue_groups (total_queue_groups nc)
      then raise (failure "Total number of requested queue groups (4G/5G) exceeds the maximum (8)")
      else save (acc100_file nc) file

  unfoldable pub generate_bb_dev_config_file : BbDevConfig → String → Exec M.State (Unit {0})
  generate_bb_dev_config_file pf_cfg file = elim pf_cfg.acc100 [
    | some nc ↦
        handle (generate_acc100_bb_dev_config_file (some nc) file) pure
          (λ e. raise (failure ("ACC100 config file creation failed, " <> message e)))
    | none ↦ elim pf_cfg.n3000 [
      | some nc ↦
          handle (generate_n3000_bb_dev_config_file (some nc) file) pure
            (λ e. raise (failure ("N3000 config file creation failed, " <> message e)))
      | none ↦ raise (failure "Received nil configs")
    ]
  ]

  unfoldable pub run_pf_config : String → String → String → Exec M.State (Unit {0})
  run_pf_config device_name cfg_filepath pci_address =
      if device_name == "FPGA_LTE" || (device_name == "FPGA_5GNR" || device_name == "ACC100")
      then (exec_cmd M
            (pf_config_app_filepath ∷ device_name ∷ "-c" ∷ cfg_filepath ∷ "-p" ∷ pci_address ∷ [])
          >>= λ _. pure tt)
      else raise (failure ("incorrect deviceName for pf config: " <> device_name))
