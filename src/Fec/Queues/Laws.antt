-- ===== src/Fec/Queues/Laws.antt =====
-- The queue configuration of an ACC100: what the file says, and when it is written.
use openshift_operator.Base.{
  ◌≡◌, refl, ◌≤◌, Bool, true, false, String, List, [], ◌∷◌, ◌==◌, Option, some, arith, ok, atoi,
  atoi-itoa, if◌then◌else◌,
}
use openshift_operator.Api.Sriov.{N3000BbDevConfig, QueueGroupConfig, Acc100BbDevConfig}
use openshift_operator.Fec.{Machine, IniSection}
use openshift_operator.Fec.Inventory.{lookup, get_or_empty}
use openshift_operator.Fec.Queues.{
  group_section, acc100_file, total_queue_groups, generate_acc100_bb_dev_config_file,
  generate_bb_dev_config_file,
}

-- The value of a key in a section, as a reader of the file finds it.
value_of : List IniSection → String → String → String
value_of [] name key = ""
value_of (s ∷ rest) name key =
    if s.section == name then get_or_empty key s.entries else value_of rest name key

group_of : List IniSection → String → QueueGroupConfig
group_of file name = record {
  num_queue_groups = atoi (value_of file name "num_qgroups");
  num_aqs_per_groups = atoi (value_of file name "num_aqs_per_groups");
  aq_depth_log2 = atoi (value_of file name "aq_depth_log2");
}

-- The configuration that a file of an ACC100 shows.
pub read_acc100 : List IniSection → Acc100BbDevConfig
read_acc100 file = record {
  pf_mode = value_of file "MODE" "pf_mode_en" == "1";
  num_vf_bundles = atoi (value_of file "VFBUNDLES" "num_vf_bundles");
  max_queue_size = atoi (value_of file "MAXQSIZE" "max_queue_size");
  uplink4g = group_of file "QUL4G";
  downlink4g = group_of file "QDL4G";
  uplink5g = group_of file "QUL5G";
  downlink5g = group_of file "QDL5G";
}

mode_lem : (b : Bool) → ((if b then "1" else "0") == "1") ≡ b
mode_lem true = refl
mode_lem false = refl

-- A file of an ACC100 reads back as the configuration it was made from.
read_acc100-acc100_file : (nc : Acc100BbDevConfig) → read_acc100 (acc100_file nc) ≡ nc
unfolding read_acc100 acc100_file group_section value_of group_of lookup get_or_empty
read_acc100-acc100_file nc = simp (atoi-itoa, mode_lem)

module _ (M : Machine) (o : Option N3000BbDevConfig) (nc : Acc100BbDevConfig) (file : String) where
  -- Where the file of a config with an ACC100 part is generated, the queue groups are at most eight,
  -- and what was saved reads back as that part, number for number; an N3000 part is not looked at.
  pub generate_bb_dev_config_file_saves :
      (s : M.State)
      → (generate_bb_dev_config_file M (record { n3000 = o; acc100 = some nc }) file s).0 ≡ ok tt
      → (total_queue_groups nc ≤ 8)
        × (content : List IniSection) × ((M.save_to content file s).0 ≡ ok tt)
        × ((generate_bb_dev_config_file M (record { n3000 = o; acc100 = some nc }) file s).1
            ≡ (M.save_to content file s).1)
        × (read_acc100 content ≡ nc)
  unfolding generate_bb_dev_config_file generate_acc100_bb_dev_config_file
  generate_bb_dev_config_file_saves s h =
      (ground arith, acc100_file nc, ground arith, ground arith, read_acc100-acc100_file nc)
