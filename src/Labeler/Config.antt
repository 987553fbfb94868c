-- ===== src/Labeler/Config.antt =====
-- common/pkg/utils/utils.go: `LoadDiscoveryConfig`, which the labeler and the daemon of the accelerators
-- read their configuration with. The file and `json.Unmarshal` are parameters.
use openshift_operator.Base.{
  ℕ, not, String, ◌<>◌, ltb, eqb, itoa, failure, message, Result, Exec, pure, raise, handle, ◌>>=◌,
  ◌>>◌, if◌then◌else◌,
}
use openshift_operator.Fec.Inventory.{AcceleratorDiscoveryConfig}

pub record ConfigFile : Type 1 where
  pub State : Type 0
  -- os.Open, Stat().Size() and Read, which gives the data and the number of bytes read
  pub open_file : String → Exec State (Unit {0})
  pub size : Exec State ℕ
  pub read : ℕ → Exec State (String × ℕ)
  pub unmarshal : String → Result AcceleratorDiscoveryConfig

abbrev pub config_filesize_limit_in_bytes : ℕ
config_filesize_limit_in_bytes = 10485760

-- `return fmt.Errorf(text, err)`
unfoldable pub wrapping {ℓ κ} : {S : Type κ} {A : Type ℓ} → String → Exec S A → Exec S A
wrapping text m = handle m pure (λ e. raise (failure (text <> message e)))

module _ (F : ConfigFile) where
  open F use {State}

  unfoldable pub load_discovery_config : String → Exec State AcceleratorDiscoveryConfig
  load_discovery_config path =
      wrapping "Failed to open config: " (F.open_file path)
      >> wrapping "Failed to get file stat: " F.size
      >>= λ size.
          if ltb config_filesize_limit_in_bytes size
          then raise (
              failure (
                "Config file size "
                <> (itoa size
                    <> (", exceeds limit " <> (itoa config_filesize_limit_in_bytes <> " bytes")))))
          else handle (F.read size)
              (λ (data_read : String × ℕ).
                if not (eqb data_read.1 size)
                then raise (failure ("Unable to read config: " <> path))
                else wrapping "Failed to unmarshal config: " (λ s. (F.unmarshal data_read.0, s)))
              (λ e. raise (failure ("Unable to read config: " <> path)))
