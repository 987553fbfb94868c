-- ===== src/Fortville.antt =====
-- N3000/pkg/daemon/fortvillemanager.go: `flashMac` with `appendBMC` and `powerCycle`, and
-- deviceupdate.go: `getDeviceUpdateFromFile`. The commands, the file and the XML decoder are
-- parameters.
pub mod Steps
mod Tests
use openshift_operator.Base.{
  contains, to_upper, replace_char, ℕ, zero, suc, ◌+◌, ◌/◌, Bool, not, ◌&&◌, String, ◌<>◌, List, [],
  ◌∷◌, ◌++◌, ◌==◌, ltb, eqb, itoa, Option, none, some, Error, failure, Result, ok, err, Exec, pure,
  raise, handle, ignoring, if◌then◌else◌, ◌>>=◌,
}

-- `module`, whose `result` is empty where the file has no status for it.
pub record Module : Type 0 where
  pub type : String
  pub version : String
  pub result : String

-- `deviceUpdateInstance`; a negative number is not told from 0.
pub record DeviceUpdate : Type 0 where
  pub modules : List Module
  pub next_update_available : ℕ

-- What a turn of the loop over the XML tokens meets: the time-out, the element `Module` or
-- `NextUpdateAvailable` as the decoder decodes it, or another token. The decoder gives no token at
-- the end of the file and at an error.
pub data Token : Type 0 where
  timed_out : Error → Token
  module_element : Result Module → Token
  next_update_element : Result ℕ → Token
  other : Token

pub record Nvm : Type 1 where
  pub State : Type 0
  -- exec.Cmd.Run of nvmupdate64e in its folder, and of rsu, with the arguments
  pub nvmupdate : List String → Exec State (Unit {0})
  pub rsu : List String → Exec State (Unit {0})
  -- os.Open, and the size of the file and its tokens
  pub open_file : String → Exec State (Unit {0})
  pub size : Exec State ℕ
  pub tokens : State → List Token

-- The form of a MAC address that the tool takes: in capitals, without colons.
unfoldable pub plain_mac : String → String
plain_mac mac = to_upper (replace_char b':' "" mac)

abbrev pub update_step_count : ℕ
update_step_count = 2

abbrev pub config_file : String
config_file = "/n3000-workdir/nvmupdate/700Series/Linux_x64/nvmupdate.cfg"

abbrev pub update_out_file : String
update_out_file = "/n3000-workdir/nvmupdate/update.xml"

-- The loop of `getDeviceUpdateFromFile`.
unfoldable pub read_tokens : List Token → DeviceUpdate → Result DeviceUpdate
read_tokens [] u = ok u
read_tokens (timed_out e ∷ ts) u = err e
read_tokens (module_element (err e) ∷ ts) u = err e
read_tokens (module_element (ok m) ∷ ts) u =
    read_tokens ts (record u { modules = u.modules ++ (m ∷ []) })
read_tokens (next_update_element (err e) ∷ ts) u = err e
read_tokens (next_update_element (ok n) ∷ ts) u =
    read_tokens ts (record u { next_update_available = n })
read_tokens (other ∷ ts) u = read_tokens ts u

-- The loop over the modules of an update: the error of the last one that has failed.
unfoldable pub status_error : String → List Module → Option Error
status_error mac [] = none
status_error mac (m ∷ ms) = elim (status_error mac ms) [
  | some e ↦ some e
  | none ↦
      if not (m.result == "") && not (m.result == "Success")
      then some (
          failure (
            "Invalid update result: "
            <> (m.result
                <> (" for MAC: "
                    <> (mac <> (" module " <> (m.type <> (" version " <> m.version))))))))
      else none
]

-- `appendBMC`
unfoldable pub append_bmc : List String → String → List String
append_bmc bmcs bmc_pci = if contains bmcs bmc_pci then bmcs else bmcs ++ (bmc_pci ∷ [])

module _ (N : Nvm) where
  open N use {State}

  unfoldable pub get_device_update_from_file : String → Exec State DeviceUpdate
  get_device_update_from_file path = N.open_file path >>= λ _. N.size >>= λ size.
      if ltb 10 (size / 1024)
      then raise (failure ("Update status xml file too large: " <> (itoa (size / 1024) <> "kB")))
      else λ s. (read_tokens (N.tokens s) (record { modules = []; next_update_available = 0 }), s)

  -- `runExecWithLog`
  unfoldable pub nvmupdate_exec : Bool → List String → Exec State (Unit {0})
  nvmupdate_exec dry_run args = if dry_run then pure tt else N.nvmupdate args

  abbrev ended : Result (Unit {0}) → State → Option (Result (Unit {0})) × State
  ended r s = (some r, s)

  module _ (mac : String) (dry_run : Bool) where
    -- The code after the two commands; `again` is the next turn of the loop, after `step` turns.
    unfoldable pub check_update :
        (State → Option (Result (Unit {0})) × State)
        → ℕ
        → State
        → Option (Result (Unit {0})) × State
    check_update again step =
        if dry_run
        then ended (ok tt)
        else handle (get_device_update_from_file update_out_file)
            (λ us. elim (status_error mac us.modules) [
              | some e ↦ ended (err e)
              | none ↦
                  if eqb us.next_update_available 1 && not (eqb update_step_count step)
                  then again
                  else ended (ok tt)
            ])
            (λ e. ended (err e))

    -- The loop of `flashMac`, with the number of turns left and the number made; `none` where no
    -- turn is left.
    unfoldable pub flash_turns : ℕ → ℕ → State → Option (Result (Unit {0})) × State
    flash_turns zero step s = (none, s)
    flash_turns (suc fuel) step s =
        let again = flash_turns fuel (suc step) in
        handle (nvmupdate_exec dry_run ("-i" ∷ []))
          (λ _.
            handle
              (nvmupdate_exec dry_run (
                "-u"
                ∷ "-m"
                ∷ plain_mac mac
                ∷ "-c"
                ∷ config_file
                ∷ "-o"
                ∷ update_out_file
                ∷ "-l"
                ∷ []))
              (λ _. check_update again (suc step)) (λ e. ended (err e)))
          (λ e. ended (err e)) s

    unfoldable pub flash_mac : State → Option (Result (Unit {0})) × State
    flash_mac = flash_turns update_step_count 0

  -- `powerCycle`, whose errors are only logged.
  unfoldable pub power_cycle : List String → Bool → Exec State (Unit {0})
  power_cycle [] dry_run = pure tt
  power_cycle (p ∷ ps) dry_run =
      let rest = power_cycle ps dry_run in
      ignoring (if dry_run then pure tt else N.rsu ("bmcimg" ∷ p ∷ [])) rest
