-- ===== src/Fortville/Tests.antt =====
-- A card whose tool has a second update after the first, and the theorem at it.
use openshift_operator.Base.{ℕ, suc, ◌≡◌, refl, true, false, [], ◌∷◌, some, is_some, ok}
use openshift_operator.Fortville.{
  Nvm, module_element, next_update_element, read_tokens, status_error, get_device_update_from_file,
  nvmupdate_exec, check_update, flash_turns, flash_mac,
}
use openshift_operator.Fortville.Steps.{flash_mac_ends}

-- The state counts the commands.
abbrev card : Nvm
card = record {
  State = ℕ;
  nvmupdate = λ args s. (ok tt, suc s);
  rsu = λ args s. (ok tt, s);
  open_file = λ path s. (ok tt, s);
  size = λ s. (ok 100, s);
  tokens = λ s.
      module_element (ok (record { type = "NVM"; version = "1"; result = "Success" }))
      ∷ next_update_element (ok 1)
      ∷ [];
}

two_turns : flash_mac card "68:05:ca" false 0 ≡ (some (ok tt), 4)
unfolding flash_mac flash_turns check_update get_device_update_from_file read_tokens status_error
    nvmupdate_exec
two_turns = refl

flash_mac_example :
    (is_some (flash_mac card "68:05:ca" false 0).0 ≡ true)
    × (flash_turns card "68:05:ca" false (suc (suc 3)) 0 0 ≡ flash_mac card "68:05:ca" false 0)
flash_mac_example = flash_mac_ends card "68:05:ca" false 3 0
