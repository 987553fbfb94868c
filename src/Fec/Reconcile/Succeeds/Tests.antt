-- ===== src/Fec/Reconcile/Succeeds/Tests.antt =====
-- The daemon of a node in memory that is drained, configured and uncordoned, and the theorem at it.
use openshift_operator.Base.{◌≡◌, refl, true, false, [], ◌∷◌, All, ok, pure}
use openshift_operator.Api.{find_status_condition, Key}
use openshift_operator.Cluster.Sriov.{NodeConfigObject}
use openshift_operator.Drain.{
  IsLawful, cordon_and_drain, uncordon, ended, finish, drain_attempt, uncordon_attempt, work,
  uncordon_and_free_leadership, on_started_leading, release, run,
}
use openshift_operator.Drain.Leading.{IsNode}
use openshift_operator.Drain.Keeping.{LeavesAlone}
use openshift_operator.Drain.Captured.{Libraries, replied, waiting, lift}
use openshift_operator.Drain.Memory.{backoff, elect, marking, marking_is_lawful, marking_leaves}
use openshift_operator.Fec.{exec_cmd}
use openshift_operator.Fec.Memory.{Sysfs, device, command, is_pf, is_driver}
use openshift_operator.Fec.Inventory.{get_sriov_inventory}
use openshift_operator.Fec.Inventory.Laws.{ReadsOnly, get_sriov_inventory_ok}
use openshift_operator.Fec.Kernel.{any_missing, grubby, is_any_kernel_params_missing}
use openshift_operator.Fec.Apply.{apply_config}
use openshift_operator.Fec.Apply.Memory.{one_pf, bound_to, one_pf-HasSysfs}
use openshift_operator.Fec.Apply.Configured.{IsConfigured, IsKnown}
use openshift_operator.Fec.Apply.Applied.{HaveDistinct}
use openshift_operator.Fec.Tests.{supported, node, pf_config, spec}
use openshift_operator.Fec.Reconcile.{
  Pod, Daemon, Locals, host, update_status, update_inventory, update_condition, delete_pods,
  restart_device_plugin, apply_and_restart, worker, conclude, after_run, configure, begin,
  handle_config, reconcile,
}
use openshift_operator.Fec.Reconcile.Errors.{locals, Starts, reconcile_skips_drain}
use openshift_operator.Fec.Reconcile.Reports.{Reports, synced}
use openshift_operator.Fec.Reconcile.Succeeds.{
  Bindings, bindings, LeavesBindings, reconcile-IsConfigured,
}
use openshift_operator.Base.{atoi, itoa}
use openshift_operator.Fec.Devices.{
  load_module, is_device_bound_to_driver, override_and_bind, unbind_device_from_driver,
  write_new_amount, write_vfs, bind_device_to_driver, change_amount_of_vfs,
}
use openshift_operator.Fec.Inventory.{
  accelerators, accelerator_of, driver_or_empty, vf_infos, vf_info, get_or_empty, is_supported,
  lookup,
}
use openshift_operator.Fec.MasterBus.{
  enable_master_bus, has_master_bus, parse_hex, parse_int, set_command, set_from, split_equals,
  without_newline,
}
use openshift_operator.Fec.Queues.{
  acc100_file, group_section, run_pf_config, total_queue_groups, generate_acc100_bb_dev_config_file,
  generate_bb_dev_config_file,
}
use openshift_operator.Fec.Apply.{
  apply_pfs, matching_accelerator, create_vfs, bind_vfs, configure_queues, deferring,
  enable_bus_of_stub, is_pci_stub,
}
use openshift_operator.Fec.Memory.{name_of, write, find_driver, find_bound, delete}

-- With the kernel parameters that the accelerators need.
abbrev ready : Sysfs
ready = record node { kernel_args = "ro intel_iommu=on iommu=pt" }

abbrev key : Key
key = record { namespace = "vran"; name = "node1" }

abbrev config : NodeConfigObject
config = record {
  key = key;
  generation = 1;
  spec = spec;
  status = record { conditions = []; inventory = record { sriov_accelerators = [] } };
}

abbrev plugin : Pod
plugin = record { key = record { namespace = "vran"; name = "plugin" }; node_name = "node1" }

abbrev libraries : Libraries Sysfs
libraries = marking Sysfs (λ b s. record s { cordoned = b }) (λ s. record s { drained = true })

abbrev daemon : Daemon
daemon = record {
  machine = one_pf;
  namespace = "vran";
  node_name = "node1";
  supported_accelerators = supported;
  set_kernel_args = grubby;
  get = λ k s. (ok config, s);
  create = λ o. pure tt;
  update_status = λ o. pure tt;
  list_plugin_pods = λ namespace. pure (plugin ∷ []);
  delete_pod = λ k. pure tt;
  libraries = libraries;
}

abbrev daemon-IsLawful : IsLawful (host daemon)
daemon-IsLawful =
    marking_is_lawful Sysfs (λ b s. record s { cordoned = b }) (λ s. record s { drained = true })
      Locals

abbrev daemon-IsNode : IsNode (host daemon)
unfolding lift
daemon-IsNode = record {
  cordoned = λ p. p.1.cordoned;
  drained = λ p. p.1.drained;
  get_keeps = λ p. refl;
  cordon_ok = λ b p h. refl;
  drain_ok = λ p h. (refl, refl);
  lease_get_keeps = λ p. refl;
  lease_clear_keeps = λ p. refl;
}

abbrev one_pf-ReadsOnly : ReadsOnly one_pf
one_pf-ReadsOnly = record {
  devices_keep = λ s. refl;
  driver_keep = λ a s. refl;
  vfs_keep = λ a s. refl;
}

drains_leave :
    LeavesAlone
      (Locals × Bindings)
      (host daemon)
      (λ (p : Locals × Sysfs). (p.0, bindings one_pf one_pf-HasSysfs p.1))
unfolding lift one_pf-HasSysfs bound_to
drains_leave =
    marking_leaves Sysfs (λ b s. record s { cordoned = b }) (λ s. record s { drained = true })
      Locals _ (λ b l s. refl) (λ l s. refl)

abbrev daemon-LeavesBindings : LeavesBindings daemon one_pf-HasSysfs
daemon-LeavesBindings = record {
  drains = drains_leave;
  reads = one_pf-ReadsOnly;
  pods_keep = λ s. refl;
  delete_keeps = λ k s. refl;
  status_keeps = λ o s. refl;
}

abbrev starts : Starts daemon key config ready ready
unfolding find_status_condition
starts =
    let read = get_sriov_inventory_ok one_pf one_pf-ReadsOnly supported device [] ready refl in
    record {
      namespace_lem = refl;
      name_lem = refl;
      between = ready;
      found = refl;
      first = pf_config;
      others = [];
      wanted = refl;
      inventory = read.0;
      read = read.1;
      fresh = refl;
    }

replies : (reconcile daemon key ready).0 ≡ replied synced
unfolding update_status update_inventory update_condition delete_pods restart_device_plugin
    apply_and_restart worker conclude after_run configure begin handle_config reconcile ended finish
    drain_attempt uncordon_attempt work uncordon_and_free_leadership cordon_and_drain uncordon
    on_started_leading release run lift backoff elect find_status_condition
    is_any_kernel_params_missing any_missing apply_config get_sriov_inventory accelerators
    is_supported lookup device accelerator_of driver_or_empty vf_infos apply_pfs
    matching_accelerator create_vfs load_module exec_cmd command bind_device_to_driver
    is_device_bound_to_driver find_bound itoa bind_vfs configure_queues deferring enable_bus_of_stub
    is_pci_stub change_amount_of_vfs override_and_bind unbind_device_from_driver write_new_amount
    write_vfs get_or_empty vf_info enable_master_bus has_master_bus parse_hex parse_int set_command
    set_from split_equals without_newline acc100_file generate_acc100_bb_dev_config_file
    generate_bb_dev_config_file group_section run_pf_config total_queue_groups write find_driver
    name_of delete atoi is_pf
replies = refl

reconcile-IsConfigured_example :
    (p : Locals × Sysfs) × (p.1.cordoned ≡ true)
    × (p.1.drained ≡ true)
    × ((apply_config one_pf supported spec (is_any_kernel_params_missing one_pf p.1).1).0 ≡ ok tt)
    × ((run (host daemon) (worker daemon spec) true (locals, ready)).1.1.cordoned ≡ false)
    × Reports daemon config
        (run (host daemon) (worker daemon spec) true (locals, ready)).1.1
        (reconcile daemon key ready).1
    × All (IsConfigured one_pf one_pf-HasSysfs (reconcile daemon key ready).1) (pf_config ∷ [])
unfolding is_pf is_driver IsKnown HaveDistinct one_pf-HasSysfs marking_is_lawful daemon-IsNode run
reconcile-IsConfigured_example =
    reconcile-IsConfigured daemon one_pf-HasSysfs daemon-LeavesBindings daemon-IsLawful
      daemon-IsNode key config ready ready starts refl refl refl ((refl, refl, refl, refl), tt)
      (tt, tt) replies

-- The daemon whose resource asks to skip the drain.
abbrev skip_config : NodeConfigObject
skip_config = record config { spec = record spec { drain_skip = true } }

abbrev skip_daemon : Daemon
skip_daemon = record daemon { get = λ k s. (ok skip_config, s) }

abbrev skip_starts : Starts skip_daemon key skip_config ready ready
unfolding find_status_condition
skip_starts =
    let read = get_sriov_inventory_ok one_pf one_pf-ReadsOnly supported device [] ready refl in
    record {
      namespace_lem = refl;
      name_lem = refl;
      between = ready;
      found = refl;
      first = pf_config;
      others = [];
      wanted = refl;
      inventory = read.0;
      read = read.1;
      fresh = refl;
    }

skips_drain_example :
    reconcile skip_daemon key ready
    ≡ (waiting, (worker skip_daemon skip_config.spec (locals, ready)).1.1)
unfolding marking_is_lawful
skips_drain_example =
    reconcile_skips_drain skip_daemon daemon-IsLawful key skip_config ready ready skip_starts refl
      refl refl
