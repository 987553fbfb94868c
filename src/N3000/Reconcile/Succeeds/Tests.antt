-- ===== src/N3000/Reconcile/Succeeds/Tests.antt =====
-- The theorem about the condition Succeeded at a node in memory that is drained.
use openshift_operator.Base.{
  done, ◌≡◌, ◌⊎◌, refl, Bool, true, false, [], ◌∷◌, none, some, Error, ok, pure, atoi, Option, itoa,
  split,
}
use openshift_operator.Api.{Key, find_status_condition}
use openshift_operator.Api.Fpga.{N3000NodeSpec}
use openshift_operator.Cluster.Fpga.{N3000Node}
use openshift_operator.Drain.{
  IsLawful, returned, cordon_and_drain, uncordon, ended, finish, drain_attempt, uncordon_attempt,
  work, uncordon_and_free_leadership, on_started_leading, release, run,
}
use openshift_operator.Drain.Leading.{IsNode}
use openshift_operator.Drain.Keeping.{LeavesAlone}
use openshift_operator.Drain.Captured.{Libraries, replied, waiting, lift}
use openshift_operator.Drain.Memory.{backoff, elect, marking, marking_is_lawful, marking_leaves}
use openshift_operator.Regexp.{
  submatches2, match_all, match_repeat, after_one, extend, lazy, greedy, begin_piece, group_text,
}
use openshift_operator.N3000.Bmc.{read_devices, read_lines, set_label, bmc_line, get_fpga_inventory}
use openshift_operator.N3000.Temperature.{
  scan_devices, scan_lines, pci_on_line, temperature_on_line, judge_temperature, limit_in_range,
  parameters_line, get_fpga_temperature_limit, check_fpga_die_temperature,
}
use openshift_operator.N3000.Program.{
  verify_pci_addrs, verify_detected, detected, get_images, image_path, verify_preconditions,
}
use openshift_operator.N3000.Images.{
  download_image, check_downloaded, verify_checksum, create_folder, get_image,
}
use openshift_operator.N3000.{run_exec, run_exec_with_log}
use openshift_operator.N3000.Program.{program_fpga, program_from, program_fpgas}
use openshift_operator.N3000.Memory.{
  memory_logs, memory_files_keep, answer, Store, empty_store, memory,
}
use openshift_operator.N3000.Reconcile.{
  Reconciler, host, verify_spec, verify_urls, verify_firmware, nothing_to_do, program_wanted,
  flash_wanted, worker, verify_wanted_fpga, verify_wanted_fortville, reconcile,
}
use openshift_operator.N3000.Reconcile.DryRun.{ApiKeeps}
use openshift_operator.N3000.Reconcile.Laws.{Begins, reconcile_without_drain, reconcile_not_retried}
use openshift_operator.N3000.Reconcile.Succeeds.{IsFlashed, Refuses, reconcile_flashes}

abbrev key : Key
key = record { namespace = "vran"; name = "node1" }

abbrev spec_of : Bool → N3000NodeSpec
spec_of skip = record {
  fpga = some (
      record { user_image_url = "http://server"; pci_addr = "0000:1b:00.0"; checksum = "image" }
      ∷ []);
  fortville = none;
  dry_run = false;
  drain_skip = skip;
}

abbrev spec : N3000NodeSpec
spec = spec_of false

abbrev resource : Bool → N3000Node
resource skip = record {
  key = key;
  generation = 1;
  spec = spec_of skip;
  status = record { conditions = []; fpga = []; fortville = [] };
}

abbrev libraries : Libraries Store
libraries = marking Store (λ b s. record s { cordoned = b }) (λ s. record s { drained = true })

-- The resource asks to skip the drain, or not.
abbrev reconciler : Bool → Reconciler
reconciler skip = record {
  node = memory;
  namespace = "vran";
  node_name = "node1";
  get = λ k s. (ok (resource skip), s);
  create = λ n. pure tt;
  status_update = λ n. pure tt;
  libraries = libraries;
}

abbrev reconciler-IsLawful : IsLawful (host (reconciler false))
reconciler-IsLawful =
    marking_is_lawful Store (λ b s. record s { cordoned = b }) (λ s. record s { drained = true })
      (Option Error)

abbrev reconciler-IsNode : IsNode (host (reconciler false))
unfolding lift
reconciler-IsNode = record {
  cordoned = λ p. p.1.cordoned;
  drained = λ p. p.1.drained;
  get_keeps = λ p. refl;
  cordon_ok = λ b p h. refl;
  drain_ok = λ p h. (refl, refl);
  lease_get_keeps = λ p. refl;
  lease_clear_keeps = λ p. refl;
}

abbrev variable_kept :
    LeavesAlone (Option Error) (host (reconciler false)) (λ (p : Option Error × Store). p.0)
variable_kept =
    marking_leaves Store (λ b s. record s { cordoned = b }) (λ s. record s { drained = true })
      (Option Error) (λ p. p.0) (λ b l s. refl) (λ l s. refl)

begins : (skip : Bool) → Begins (reconciler skip) key (resource skip) empty_store empty_store
unfolding verify_spec verify_urls verify_firmware nothing_to_do find_status_condition
begins skip = record {
  namespace_lem = refl;
  name_lem = refl;
  found = refl;
  valid = refl;
  wanted = refl;
  fresh = refl;
}

abbrev verified_store : Store
verified_store = (verify_wanted_fpga (reconciler false) spec empty_store).1

known_fpga :
    (skip : Bool)
    → verify_wanted_fpga (reconciler skip) (spec_of skip) empty_store ≡ (ok tt, verified_store)
unfolding verify_wanted_fpga verify_preconditions verify_pci_addrs get_fpga_inventory run_exec
    verify_detected detected read_devices split answer read_lines set_label bmc_line submatches2
    match_all match_repeat after_one extend lazy greedy begin_piece group_text create_folder
    get_images check_fpga_die_temperature scan_devices scan_lines pci_on_line temperature_on_line
    parameters_line judge_temperature get_fpga_temperature_limit limit_in_range image_path itoa atoi
    get_image download_image check_downloaded verify_checksum
known_fpga skip = refl

no_controllers :
    (skip : Bool)
    → verify_wanted_fortville (reconciler skip) (spec_of skip) verified_store
      ≡ (ok tt, verified_store)
unfolding verify_wanted_fortville
no_controllers skip = refl

abbrev end_store : Store
end_store =
    (run (host (reconciler false)) (worker (reconciler false) spec) true (none, verified_store)).1.1

runs_to_end :
    run (host (reconciler false)) (worker (reconciler false) spec) true (none, verified_store)
    ≡ (returned none, (none, end_store))
unfolding ended finish drain_attempt uncordon_attempt work uncordon_and_free_leadership
    cordon_and_drain uncordon on_started_leading release run lift backoff elect worker
    program_wanted flash_wanted program_fpgas program_from program_fpga run_exec_with_log
    verify_wanted_fpga verify_preconditions verify_pci_addrs get_fpga_inventory run_exec
    verify_detected detected read_devices split answer read_lines set_label bmc_line submatches2
    match_all match_repeat after_one extend lazy greedy begin_piece group_text create_folder
    get_images check_fpga_die_temperature scan_devices scan_lines pci_on_line temperature_on_line
    parameters_line judge_temperature get_fpga_temperature_limit limit_in_range image_path itoa atoi
    get_image download_image check_downloaded verify_checksum
runs_to_end = refl

abbrev api_keeps : ApiKeeps (reconciler false) memory_logs
unfolding memory_logs
api_keeps = record {
  get_keeps = λ k s. refl;
  create_keeps = λ n s. refl;
  status_update_keeps = λ n s. refl;
  libraries_keep =
      marking_leaves Store (λ b s. record s { cordoned = b }) (λ s. record s { drained = true })
        (Option Error) (λ p. memory_logs.log p.1) (λ b l s. refl) (λ l s. refl);
}

reconcile_flashes_example :
    IsFlashed
      (reconciler false)
      memory_logs
      reconciler-IsNode
      (resource false)
      empty_store
      (reconcile (reconciler false) key empty_store)
    ⊎ Refuses
        (reconciler false)
        memory_logs
        reconciler-IsLawful
        (resource false)
        verified_store
        (reconcile (reconciler false) key empty_store)
unfolding marking_is_lawful
reconcile_flashes_example =
    reconcile_flashes (reconciler false) memory_logs memory_files_keep api_keeps reconciler-IsLawful
      reconciler-IsNode variable_kept (λ p. refl) (λ p. refl) key (resource false) empty_store
      empty_store verified_store verified_store (begins false) refl (known_fpga false)
      (no_controllers false) refl refl

not_retried_example :
    ((reconcile (reconciler false) key empty_store).0 ≡ replied done)
    ⊎ ((reconcile (reconciler false) key empty_store).0 ≡ waiting)
not_retried_example =
    reconcile_not_retried (reconciler false) key (resource false) empty_store empty_store
      (begins false)

skips_drain_n3000_example :
    reconcile (reconciler true) key empty_store
    ≡ (waiting, (worker (reconciler true) (spec_of true) (none, verified_store)).1.1)
unfolding marking_is_lawful
skips_drain_n3000_example =
    reconcile_without_drain (reconciler true) reconciler-IsLawful key (resource true) empty_store
      empty_store verified_store verified_store (begins true) refl (known_fpga true)
      (no_controllers true) refl refl
