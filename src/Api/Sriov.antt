-- ===== src/Api/Sriov.antt =====
-- sriov-fec/api/v1/sriovfecclusterconfig_types.go and sriovfecnodeconfig_types.go.
use openshift_operator.Base.{ℕ, Bool, String, List, Option}
use openshift_operator.Api.{Condition}

pub record UplinkDownlinkQueues : Type 0 where
  pub vf0 : ℕ
  pub vf1 : ℕ
  pub vf2 : ℕ
  pub vf3 : ℕ
  pub vf4 : ℕ
  pub vf5 : ℕ
  pub vf6 : ℕ
  pub vf7 : ℕ

pub record UplinkDownlink : Type 0 where
  pub bandwidth : ℕ
  pub load_balance : ℕ
  pub queues : UplinkDownlinkQueues

pub record N3000BbDevConfig : Type 0 where
  pub network_type : String
  pub pf_mode : Bool
  pub flr_time_out : ℕ
  pub downlink : UplinkDownlink
  pub uplink : UplinkDownlink

pub record QueueGroupConfig : Type 0 where
  pub num_queue_groups : ℕ
  pub num_aqs_per_groups : ℕ
  pub aq_depth_log2 : ℕ

pub record Acc100BbDevConfig : Type 0 where
  pub pf_mode : Bool
  pub num_vf_bundles : ℕ
  pub max_queue_size : ℕ
  pub uplink4g : QueueGroupConfig
  pub downlink4g : QueueGroupConfig
  pub uplink5g : QueueGroupConfig
  pub downlink5g : QueueGroupConfig

pub record BbDevConfig : Type 0 where
  pub n3000 : Option N3000BbDevConfig
  pub acc100 : Option Acc100BbDevConfig

pub record PhysicalFunctionConfig : Type 0 where
  pub pci_address : String
  pub pf_driver : String
  pub vf_driver : String
  pub vf_amount : ℕ
  pub bb_dev_config : BbDevConfig

pub record NodeConfig : Type 0 where
  pub node_name : String
  pub physical_functions : List PhysicalFunctionConfig

pub record SriovFecClusterConfigSpec : Type 0 where
  pub nodes : List NodeConfig
  pub drain_skip : Bool

pub record SriovFecNodeConfigSpec : Type 0 where
  pub physical_functions : List PhysicalFunctionConfig
  pub drain_skip : Bool

pub record Vf : Type 0 where
  pub pci_address : String
  pub driver : String
  pub device_id : String

pub record SriovAccelerator : Type 0 where
  pub vendor_id : String
  pub device_id : String
  pub pci_address : String
  pub driver : String
  pub max_vfs : ℕ
  pub vfs : List Vf

pub record NodeInventory : Type 0 where
  pub sriov_accelerators : List SriovAccelerator

pub record SriovFecNodeConfigStatus : Type 0 where
  pub conditions : List Condition
  pub inventory : NodeInventory
