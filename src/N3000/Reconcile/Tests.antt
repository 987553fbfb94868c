-- ===== src/N3000/Reconcile/Tests.antt =====
-- The theorems about the reconciler at a node in memory.
use openshift_operator.Base.{
  ◌≡◌, refl, Bool, true, false, [], ◌∷◌, none, some, Error, failure, Result, arith, ok, err, pure,
  atoi, Option, itoa, split, if◌then◌else◌,
}
use openshift_operator.Api.{Key, find_status_condition}
use openshift_operator.Api.Fpga.{N3000NodeSpec}
use openshift_operator.Cluster.Fpga.{N3000Node}
use openshift_operator.Drain.Memory.{libraries, libraries_leave_alone}
use openshift_operator.Regexp.{
  submatches2, match_all, match_repeat, after_one, extend, lazy, greedy, begin_piece, group_text,
}
use openshift_operator.N3000.Bmc.{read_devices, read_lines, set_label, bmc_line, get_fpga_inventory}
use openshift_operator.N3000.Temperature.{
  scan_devices, scan_lines, pci_on_line, temperature_on_line, judge_temperature, limit_in_range,
  parameters_line, get_fpga_temperature_limit, check_fpga_die_temperature,
}
use openshift_operator.N3000.Program.{
  verify_pci_addrs, verify_detected, detected, get_images, image_path, verify_preconditions,
}
use openshift_operator.N3000.Images.{
  download_image, check_downloaded, verify_checksum, create_folder, get_image,
}
use openshift_operator.N3000.{run_exec}
use openshift_operator.N3000.Memory.{
  memory_logs, memory_files_keep, answer, Store, empty_store, memory,
}
use openshift_operator.N3000.Reconcile.{
  Reconciler, verify_spec, verify_urls, verify_firmware, nothing_to_do, verify_wanted_fpga,
  reconcile,
}
use openshift_operator.N3000.Reconcile.DryRun.{ApiKeeps, reconcile_dry_run}
use openshift_operator.N3000.Reconcile.Laws.{Begins}

abbrev key : Key
key = record { namespace = "vran"; name = "node1" }

-- An FPGA that the node does not have, and one that it has.
abbrev spec_of : Bool → N3000NodeSpec
spec_of known = record {
  fpga = some (
      record {
        user_image_url = "http://server";
        pci_addr = if known then "0000:1b:00.0" else "0000:00:00.0";
        checksum = "image";
      }
      ∷ []);
  fortville = none;
  dry_run = true;
  drain_skip = known;
}

abbrev resource : Bool → N3000Node
resource known = record {
  key = key;
  generation = 1;
  spec = spec_of known;
  status = record { conditions = []; fpga = []; fortville = [] };
}

abbrev reconciler : Bool → Reconciler
reconciler known = record {
  node = memory;
  namespace = "vran";
  node_name = "node1";
  get = λ k s. (ok (resource known), s);
  create = λ n. pure tt;
  status_update = λ n. pure tt;
  libraries = libraries Store;
}

begins : (known : Bool) → Begins (reconciler known) key (resource known) empty_store empty_store
unfolding verify_spec verify_urls verify_firmware nothing_to_do find_status_condition
begins known = record {
  namespace_lem = refl;
  name_lem = refl;
  found = refl;
  valid = refl;
  wanted = refl;
  fresh = refl;
}

abbrev missing : Error
missing = failure "Unable to detect FPGA PCIAddr=0000:00:00.0: "

missing_fpga :
    verify_wanted_fpga (reconciler false) (spec_of false) empty_store ≡ (err missing, empty_store)
unfolding verify_wanted_fpga verify_preconditions verify_pci_addrs get_fpga_inventory run_exec
    verify_detected detected read_devices split answer read_lines set_label bmc_line submatches2
    match_all match_repeat after_one extend lazy greedy begin_piece group_text create_folder
    get_images check_fpga_die_temperature scan_devices scan_lines pci_on_line temperature_on_line
    parameters_line judge_temperature get_fpga_temperature_limit limit_in_range image_path itoa atoi
    get_image download_image check_downloaded verify_checksum
missing_fpga = refl

abbrev verified_store : Store
verified_store = (verify_wanted_fpga (reconciler true) (spec_of true) empty_store).1

known_fpga :
    verify_wanted_fpga (reconciler true) (spec_of true) empty_store ≡ (ok tt, verified_store)
unfolding verify_wanted_fpga verify_preconditions verify_pci_addrs get_fpga_inventory run_exec
    verify_detected detected read_devices split answer read_lines set_label bmc_line submatches2
    match_all match_repeat after_one extend lazy greedy begin_piece group_text create_folder
    get_images check_fpga_die_temperature scan_devices scan_lines pci_on_line temperature_on_line
    parameters_line judge_temperature get_fpga_temperature_limit limit_in_range image_path itoa atoi
    get_image download_image check_downloaded verify_checksum
known_fpga = refl

abbrev api_keeps : ApiKeeps (reconciler true) memory_logs
unfolding memory_logs
api_keeps = record {
  get_keeps = λ k s. refl;
  create_keeps = λ n s. refl;
  status_update_keeps = λ n s. refl;
  libraries_keep = libraries_leave_alone Store (Option Error) memory_logs.log;
}

asks_for_dry_run :
    (n : N3000Node) → Path (Result N3000Node) (ok (resource true)) (ok n) → n.spec.dry_run ≡ true
asks_for_dry_run n h = ground (arith, h)

reconcile_dry_run_example : (reconcile (reconciler true) key empty_store).1.commands ≡ []
unfolding memory_logs
reconcile_dry_run_example =
    reconcile_dry_run (reconciler true) memory_logs memory_files_keep api_keeps key empty_store
      asks_for_dry_run
