-- ===== src/N3000/Flash/DryRun.antt =====
-- The flash in a dry run, and the log of the commands.
use openshift_operator.Base.{
  ◌≡◌, refl, ◌∙◌, arith, true, false, String, List, [], ◌∷◌, split, Option, none, some, Result, ok,
  err, handle, branch, Keeps, bind-Keeps, then-Keeps, if-Keeps,
}
use openshift_operator.Api.Fpga.{FortvilleStatus, N3000FortvilleStatus}
use openshift_operator.Regexp.{submatches2}
use openshift_operator.Fortville.{
  append_bmc, nvmupdate_exec, check_update, flash_turns, flash_mac, power_cycle,
}
use openshift_operator.N3000.{Node, run_exec, nvm}
use openshift_operator.N3000.Bmc.{fpga_info_bmc, get_n3000_devices}
use openshift_operator.N3000.Nics.{
  PciParts, mactest_regex, pci_parts, mactest, add_ethtool_info, add_device_name, with_name,
  nic_status, nic_statuses, get_n3000_nics, card_statuses, get_inventory,
}
use openshift_operator.N3000.Program.Commands.{Logs}
use openshift_operator.N3000.Flash.{
  has_mac, flash_result, flash_cards, flash_macs, cycle_flashed, flash,
}

module _ (N : Node) (L : Logs N) where
  open N use {State}
  open L use {log}

  pub run_exec-Keeps : (name : String) (args : List String) → Keeps log (run_exec N name args false)
  unfolding run_exec
  run_exec-Keeps name args = L.info_keeps name args

  add_ethtool_info-Keeps :
      (if_name : String) (fs : FortvilleStatus) → Keeps log (add_ethtool_info N if_name fs)
  unfolding add_ethtool_info
  add_ethtool_info-Keeps if_name fs =
      bind-Keeps log (run_exec N "ethtool" ("-i" ∷ if_name ∷ []) false) _ (run_exec-Keeps _ _)
        (λ _ s. refl)

  add_device_name-Keeps : (fs : FortvilleStatus) → Keeps log (add_device_name N fs)
  unfolding add_device_name
  add_device_name-Keeps fs =
      bind-Keeps log (N.combined_output "bash" _) _ (L.info_keeps _ _) (λ _ s. refl)

  with_name-Keeps : (fs : FortvilleStatus) (s : State) → log (with_name N fs s).1 ≡ log s
  unfolding with_name
  with_name-Keeps fs s = ground (arith, add_device_name-Keeps fs s)

  nic_status-Keeps : (if_name mac : String) (s : State) → log (nic_status N if_name mac s).1 ≡ log s
  unfolding nic_status
  nic_status-Keeps if_name mac s = by_result (add_ethtool_info N if_name fs s).0 refl
    where
      fs : FortvilleStatus
      fs = record { name = ""; pci_addr = ""; version = ""; mac = mac }

      t : State
      t = (add_ethtool_info N if_name fs s).1

      by_result :
          (r : Result FortvilleStatus)
          → (add_ethtool_info N if_name fs s).0 ≡ r
          → log (nic_status N if_name mac s).1 ≡ log s
      by_result (ok fs') e =
          rw (nic_status, e, handle, branch)
            (with_name-Keeps fs' t ∙ add_ethtool_info-Keeps if_name fs s)
      by_result (err x) e =
          rw (nic_status, e, handle, branch)
            (with_name-Keeps fs t ∙ add_ethtool_info-Keeps if_name fs s)

  nic_statuses-Keeps : (lines : List String) (s : State) → log (nic_statuses N lines s).1 ≡ log s
  unfolding nic_statuses
  nic_statuses-Keeps [] s = refl
  nic_statuses-Keeps (line ∷ lines) s =
      by_match (submatches2 mactest_regex line) refl (nic_statuses-Keeps lines)
    where
      by_match :
          (o : Option (String × String))
          → submatches2 mactest_regex line ≡ o
          → ((t : State) → log (nic_statuses N lines t).1 ≡ log t)
          → log (nic_statuses N (line ∷ lines) s).1 ≡ log s
      by_match none e ih = ground (arith, e, ih s)
      by_match (some (if_name, mac)) e ih =
          ground (arith, e, ih (nic_status N if_name mac s).1, nic_status-Keeps if_name mac s)

  get_n3000_nics-Keeps : (pci : String) → Keeps log (get_n3000_nics N pci)
  unfolding get_n3000_nics
  get_n3000_nics-Keeps pci s = by_parts (pci_parts pci) refl
    where
      by_parts : (o : Option PciParts) → pci_parts pci ≡ o → log (get_n3000_nics N pci s).1 ≡ log s
      by_parts none e = ground (arith, e)
      by_parts (some parts) e =
          rw (get_n3000_nics, e)
            (bind-Keeps log (mactest N parts)
              (λ out t. let (nics, t') = nic_statuses N (split out "\n") t in (ok nics, t'))
              (run_exec-Keeps _ _) (λ out t. nic_statuses-Keeps (split out "\n") t) s)

  card_statuses-Keeps : (pcis : List String) → Keeps log (card_statuses N pcis)
  unfolding card_statuses
  card_statuses-Keeps [] = λ s. refl
  card_statuses-Keeps (d ∷ ds) =
      bind-Keeps log (get_n3000_nics N d) _ (get_n3000_nics-Keeps d)
        (λ nics. bind-Keeps log (card_statuses N ds) _ (card_statuses-Keeps ds) (λ _ s. refl))

  pub get_inventory-Keeps : Keeps log (get_inventory N)
  unfolding get_inventory get_n3000_devices
  get_inventory-Keeps =
      bind-Keeps log (get_n3000_devices N) (card_statuses N)
        (bind-Keeps log (fpga_info_bmc N) _ (run_exec-Keeps _ _) (λ _ s. refl)) card_statuses-Keeps

  flash_mac-Keeps : (mac : String) (s : State) → log (flash_mac (nvm N) mac true s).1 ≡ log s
  unfolding flash_mac flash_turns nvmupdate_exec check_update
  flash_mac-Keeps mac s = refl

  flash_result-Keeps :
      (mac : String) → Keeps log (λ s. flash_result N (flash_mac (nvm N) mac true s))
  unfolding flash_result
  flash_result-Keeps mac s = ground (arith, flash_mac-Keeps mac s)

  flash_cards-Keeps :
      (mac : String) (inv : List N3000FortvilleStatus) (bs : List String)
      → Keeps log (flash_cards N true mac inv bs)
  unfolding flash_cards
  flash_cards-Keeps mac [] bs = λ s. refl
  flash_cards-Keeps mac (i ∷ inv) bs =
      if-Keeps log (has_mac mac i.nics) _ (flash_cards N true mac inv bs)
        (then-Keeps log (λ s. flash_result N (flash_mac (nvm N) mac true s))
          (flash_cards N true mac inv (append_bmc bs i.n3000_pci)) (flash_result-Keeps mac)
          (flash_cards-Keeps mac inv (append_bmc bs i.n3000_pci)))
        (flash_cards-Keeps mac inv bs)

  flash_macs-Keeps :
      (ms : List String) (inv : List N3000FortvilleStatus) (bs : List String)
      → Keeps log (flash_macs N true ms inv bs)
  unfolding flash_macs
  flash_macs-Keeps [] inv bs = λ s. refl
  flash_macs-Keeps (m ∷ ms) inv bs =
      bind-Keeps log (flash_cards N true m inv bs) _ (flash_cards-Keeps m inv bs)
        (λ bs'. flash_macs-Keeps ms inv bs')

  power_cycle-Keeps : (pcis : List String) → Keeps log (power_cycle (nvm N) pcis true)
  unfolding power_cycle
  power_cycle-Keeps [] s = refl
  power_cycle-Keeps (p ∷ ps) s = power_cycle-Keeps ps s

  cycle_flashed-Keeps : (bs : List String) → Keeps log (cycle_flashed N true bs)
  unfolding cycle_flashed
  cycle_flashed-Keeps [] s = refl
  cycle_flashed-Keeps (b ∷ bs) s = power_cycle-Keeps (b ∷ bs) s

  -- A dry run of the flash leaves the log of the commands as it is.
  pub flash-Keeps : (macs : List String) → Keeps log (flash N true macs)
  unfolding flash
  flash-Keeps macs = bind-Keeps log (get_inventory N) _ get_inventory-Keeps (λ inv.
      bind-Keeps log (flash_macs N true macs inv []) (cycle_flashed N true)
        (flash_macs-Keeps macs inv []) cycle_flashed-Keeps)
