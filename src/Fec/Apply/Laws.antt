-- ===== src/Fec/Apply/Laws.antt =====
-- What an application of a configuration that returned no error has checked.
use openshift_operator.Base.{◌≡◌, List, Option, none, some, ◌≤◌}
use openshift_operator.Api.Sriov.{SriovAccelerator, Acc100BbDevConfig, PhysicalFunctionConfig}
use openshift_operator.Fec.Queues.{total_queue_groups}
use openshift_operator.Fec.Apply.{matching_accelerator}

-- The queue groups of an ACC100 configuration are not too many.
unfoldable pub HasFewGroups : Option Acc100BbDevConfig → Type 0
HasFewGroups none = Unit {0}
HasFewGroups (some nc) = total_queue_groups nc ≤ 8

-- A physical function that the inventory knows and whose queues can be configured.
unfoldable pub IsAccepted : List SriovAccelerator → PhysicalFunctionConfig → Type 0
IsAccepted accs pf =
    ((acc : SriovAccelerator) × (matching_accelerator accs pf.pci_address ≡ some acc))
    × HasFewGroups pf.bb_dev_config.acc100
