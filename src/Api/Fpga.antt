-- ===== src/Api/Fpga.antt =====
-- N3000/api/v1/n3000cluster_types.go and n3000node_types.go.
use openshift_operator.Base.{ℤ, Bool, String, List, Option}
use openshift_operator.Api.{Condition}

pub record N3000Fpga : Type 0 where
  pub user_image_url : String
  pub pci_addr : String
  pub checksum : String

pub record N3000Fortville : Type 0 where
  pub firmware_url : String
  pub macs : List String
  pub checksum : String

pub record N3000ClusterNode : Type 0 where
  pub node_name : String
  pub fpga : Option (List N3000Fpga)
  pub fortville : Option N3000Fortville

pub record N3000ClusterSpec : Type 0 where
  pub nodes : List N3000ClusterNode
  pub dry_run : Bool
  pub drain_skip : Bool

pub record N3000NodeSpec : Type 0 where
  pub fpga : Option (List N3000Fpga)
  pub fortville : Option N3000Fortville
  pub dry_run : Bool
  pub drain_skip : Bool

pub record FortvilleStatus : Type 0 where
  pub name : String
  pub pci_addr : String
  pub version : String
  pub mac : String

pub record N3000FortvilleStatus : Type 0 where
  pub n3000_pci : String
  pub nics : List FortvilleStatus

pub record N3000FpgaStatus : Type 0 where
  pub pci_addr : String
  pub device_id : String
  pub bitstream_id : String
  pub bitstream_version : String
  pub numa_node : ℤ

pub record N3000NodeStatus : Type 0 where
  pub conditions : List Condition
  pub fpga : List N3000FpgaStatus
  pub fortville : List N3000FortvilleStatus
