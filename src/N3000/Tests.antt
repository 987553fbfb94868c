-- ===== src/N3000/Tests.antt =====
-- The theorems about the daemon at a node in memory.
use openshift_operator.Regexp.{
  submatches2, match_all, match_repeat, after_one, extend, lazy, greedy, begin_piece, group_text,
}
use openshift_operator.N3000.Nics.{
  get_inventory, card_statuses, get_n3000_nics, pci_parts, pci_regex, mactest_regex, nic_statuses,
  nic_status, with_name, add_ethtool_info, add_device_name, name_of_records, set_infos,
  ethtool_regex,
}
use openshift_operator.Base.{
  itoa, handle, branch, atoi, ◌≤◌, ◌≡◌, refl, arith, true, false, not, String, List, [], ◌∷◌, map,
  length, contains, split, ltb, none, some, ok,
}
use openshift_operator.Api.Fpga.{N3000Fpga, N3000FortvilleStatus, N3000FpgaStatus, N3000NodeSpec}
use openshift_operator.Fortville.{
  flash_mac, flash_turns, check_update, nvmupdate_exec, append_bmc, power_cycle,
}
use openshift_operator.N3000.{nvm, run_exec}
use openshift_operator.N3000.Images.{
  download_image, check_downloaded, verify_checksum, create_folder, get_image,
}
use openshift_operator.N3000.Bmc.{
  read_devices, read_lines, set_label, fpga_info_bmc, bmc_line, read_pcis, first_pci,
  get_fpga_inventory, get_n3000_devices,
}
use openshift_operator.N3000.Bmc.Laws.{pci_values, OnePci, get_n3000_devices-get_fpga_inventory}
use openshift_operator.N3000.Temperature.{
  scan_devices, scan_lines, pci_on_line, temperature_on_line, judge_temperature, limit_in_range,
  parameters_line, get_fpga_temperature_limit, check_fpga_die_temperature,
}
use openshift_operator.N3000.Temperature.Laws.{
  is_ok, names_pci, die_text, check_fpga_die_temperature_lem,
}
use openshift_operator.N3000.Program.{
  verify_pci_addrs, verify_detected, detected, get_images, image_path, verify_preconditions,
  program_fpgas,
}
use openshift_operator.N3000.Program.Laws.{AllImages, verify_preconditions-AllImages}
use openshift_operator.N3000.Program.Commands.{Runs, wanted_commands, program_fpgas-Runs}
use openshift_operator.N3000.Flash.{
  flash_cards, flash_result, has_mac, cycle_flashed, flash, flash_macs,
}
use openshift_operator.N3000.Flash.Laws.{Distinct, card_has_any, flash_cycles}
use openshift_operator.N3000.Memory.{
  empty_store, answer, memory, memory_files, memory_logs, card_info,
}

card_reads : fpga_info_bmc memory empty_store ≡ (ok card_info, empty_store)
unfolding run_exec answer
card_reads = refl

one_pci : length (pci_values (split card_info "\n")) ≤ 1
unfolding split pci_values bmc_line submatches2 match_all match_repeat after_one extend lazy greedy
    begin_piece group_text
one_pci = omega arith

names_card : names_pci "0000:1b:00.0" (split card_info "\n") ≡ true
unfolding split names_pci bmc_line submatches2 match_all match_repeat after_one extend lazy greedy
    begin_piece group_text
names_card = refl

die_of_card : die_text (split card_info "\n") ≡ some "70"
unfolding split die_text parameters_line bmc_line submatches2 match_all match_repeat after_one
    extend lazy greedy begin_piece group_text
die_of_card = refl

devices_example :
    (inventory : List N3000FpgaStatus) × (get_fpga_inventory memory empty_store
      ≡ (ok inventory, empty_store))
    × (get_n3000_devices memory empty_store
        ≡ (ok (map (λ (d : N3000FpgaStatus). d.pci_addr) inventory), empty_store))
unfolding split OnePci
devices_example =
    get_n3000_devices-get_fpga_inventory memory empty_store empty_store card_info card_reads
      (one_pci, tt)

temperature_example :
    (is_ok (check_fpga_die_temperature memory "0000:1b:00.0" empty_store).0
      ≡ not (ltb (get_fpga_temperature_limit memory) 70))
    × ((check_fpga_die_temperature memory "0000:1b:00.0" empty_store).1 ≡ empty_store)
unfolding split atoi
temperature_example =
    check_fpga_die_temperature_lem memory "0000:1b:00.0" "70" card_info card_info [] [] empty_store
      empty_store card_reads refl tt names_card die_of_card

abbrev spec_fpgas : List N3000Fpga
spec_fpgas =
    record { user_image_url = "http://server"; pci_addr = "0000:1b:00.0"; checksum = "image" } ∷ []

abbrev card_inventory : List N3000FortvilleStatus
card_inventory =
    record {
      n3000_pci = "0000:1b:00.0";
      nics = record { name = ""; pci_addr = ""; version = ""; mac = "00:00:00:00:00:01" } ∷ [];
    }
    ∷ []

abbrev spec : N3000NodeSpec
spec = record { fpga = some spec_fpgas; fortville = none; dry_run = false; drain_skip = false }

verified : (verify_preconditions memory spec empty_store).0 ≡ ok tt
unfolding verify_preconditions verify_pci_addrs get_fpga_inventory run_exec verify_detected detected
    read_devices split answer read_lines set_label bmc_line submatches2 match_all match_repeat
    after_one extend lazy greedy begin_piece group_text create_folder get_images
    check_fpga_die_temperature scan_devices scan_lines pci_on_line temperature_on_line
    parameters_line judge_temperature get_fpga_temperature_limit limit_in_range image_path itoa atoi
    get_image download_image check_downloaded verify_checksum
verified = refl

images_example :
    AllImages memory memory_files 0 spec_fpgas (verify_preconditions memory spec empty_store).1
images_example = verify_preconditions-AllImages memory memory_files spec empty_store verified

commands_example :
    Runs memory memory_logs (wanted_commands 0 spec_fpgas) (program_fpgas memory spec) empty_store
commands_example = program_fpgas-Runs memory memory_logs spec empty_store

inventory_reads : get_inventory memory empty_store ≡ (ok card_inventory, empty_store)
unfolding get_inventory get_n3000_devices run_exec card_statuses read_pcis split answer first_pci
    bmc_line submatches2 match_all match_repeat after_one extend lazy greedy begin_piece group_text
    get_n3000_nics pci_parts pci_regex mactest_regex nic_statuses nic_status with_name
    add_ethtool_info add_device_name name_of_records set_infos ethtool_regex
inventory_reads = refl

flashed : (flash memory true ("00:00:00:00:00:01" ∷ []) empty_store).0 ≡ ok tt
unfolding flash flash_macs flash_cards flash_result flash_mac flash_turns check_update
    nvmupdate_exec has_mac cycle_flashed power_cycle append_bmc contains
flashed = rw (inventory_reads, handle, branch) refl

flash_example :
    (bmcs : List String) × (flash memory true ("00:00:00:00:00:01" ∷ []) empty_store
      ≡ power_cycle
          (nvm memory)
          bmcs
          true
          (flash_macs memory true ("00:00:00:00:00:01" ∷ []) card_inventory [] empty_store).1)
    × Distinct bmcs
    × ((k : String) → contains bmcs k ≡ card_has_any ("00:00:00:00:00:01" ∷ []) card_inventory k)
flash_example =
    flash_cycles memory true ("00:00:00:00:00:01" ∷ []) card_inventory empty_store empty_store
      inventory_reads flashed
