-- ===== src/Fec/Apply/Tests.antt =====
-- A configuration that is applied on a node in memory with one physical function.
use openshift_operator.Base.{refl, [], ◌∷◌, All, atoi, itoa}
use openshift_operator.Fec.{exec_cmd}
use openshift_operator.Fec.Devices.{
  load_module, is_device_bound_to_driver, override_and_bind, unbind_device_from_driver,
  write_new_amount, write_vfs, bind_device_to_driver, change_amount_of_vfs,
}
use openshift_operator.Fec.Inventory.{
  accelerators, accelerator_of, driver_or_empty, vf_infos, vf_info, get_or_empty, is_supported,
  lookup, get_sriov_inventory,
}
use openshift_operator.Fec.MasterBus.{
  enable_master_bus, has_master_bus, parse_hex, parse_int, set_command, set_from, split_equals,
  without_newline,
}
use openshift_operator.Fec.Queues.{
  acc100_file, group_section, run_pf_config, total_queue_groups, generate_acc100_bb_dev_config_file,
  generate_bb_dev_config_file,
}
use openshift_operator.Fec.Apply.{
  apply_pfs, matching_accelerator, create_vfs, bind_vfs, configure_queues, deferring,
  enable_bus_of_stub, is_pci_stub, apply_config,
}
use openshift_operator.Fec.Apply.Configured.{IsConfigured, IsKnown}
use openshift_operator.Fec.Apply.Applied.{HaveDistinct, apply_config-IsConfigured}
use openshift_operator.Fec.Memory.{
  Sysfs, name_of, write, find_driver, find_bound, device, delete, command, is_driver, is_pf,
}
use openshift_operator.Fec.Tests.{node, supported, pf_config, spec}
use openshift_operator.Fec.Apply.Memory.{one_pf, bound_to, one_pf-HasSysfs}

configured_node : Sysfs
unfolding apply_config get_sriov_inventory accelerators is_supported lookup device accelerator_of
    driver_or_empty vf_infos apply_pfs matching_accelerator create_vfs load_module exec_cmd command
    bind_device_to_driver is_device_bound_to_driver find_bound itoa bind_vfs configure_queues
    deferring enable_bus_of_stub is_pci_stub change_amount_of_vfs override_and_bind
    unbind_device_from_driver write_new_amount write_vfs get_or_empty vf_info enable_master_bus
    has_master_bus parse_hex parse_int set_command set_from split_equals without_newline acc100_file
    generate_acc100_bb_dev_config_file generate_bb_dev_config_file group_section run_pf_config
    total_queue_groups write find_driver name_of delete atoi
configured_node = (apply_config one_pf supported spec node).1

apply_config-IsConfigured_example :
    All (IsConfigured one_pf one_pf-HasSysfs configured_node) (pf_config ∷ [])
unfolding configured_node is_pf is_driver bound_to IsKnown HaveDistinct one_pf-HasSysfs
apply_config-IsConfigured_example =
    apply_config-IsConfigured one_pf one_pf-HasSysfs supported spec node
      ((refl, refl, refl, refl), tt) (tt, tt) refl
