-- ===== src/Drain/Settings.antt =====
-- common/pkg/drainhelper/drainhelper.go: `NewDrainHelper`, the settings that it reads from the
-- environment, and the drainer, the lease and the election that it makes of them. Loggers and clients
-- are left out.
pub mod Laws
use openshift_operator.Base.{
  ◌≡◌, refl, Bool, true, ℤ, pos, negsuc, ◌*ℤ◌, parse_signed, is_int64, wrap_int64, String, ◌==◌,
  none, some, if◌then◌else◌,
}

-- `strconv.ParseInt(s, 10, 64)`, and the default where there is an error.
unfoldable pub parse_or_default : String → ℤ → ℤ
parse_or_default s default = elim (parse_signed s) [
  | none ↦ default
  | some n ↦ if is_int64 n then n else default
]

-- One setting, from the value of its variable.
unfoldable pub setting : String → ℤ → ℤ
setting s default = if s == "" then default else parse_or_default s default

abbrev pub drain_helper_timeout_default : ℤ
drain_helper_timeout_default = pos 90

abbrev pub lease_duration_default : ℤ
lease_duration_default = pos 600

-- `time.Duration(n) * time.Second`, in nanoseconds
unfoldable pub seconds : ℤ → ℤ
seconds n = wrap_int64 (n *ℤ 1000000000)

-- `resourcelock.LeaseLock`
pub record LeaseLock : Type 0 where
  pub name : String
  pub namespace : String
  pub identity : String

-- The fields of `drain.Helper` that are set; the durations are in nanoseconds.
pub record Drainer : Type 0 where
  pub force : Bool
  pub ignore_all_daemon_sets : Bool
  pub delete_empty_dir_data : Bool
  pub grace_period_seconds : ℤ
  pub timeout : ℤ

-- The fields of `leaderelection.LeaderElectionConfig` that are set.
pub record LeaderElectionConfig : Type 0 where
  pub lock : LeaseLock
  pub release_on_cancel : Bool
  pub lease_duration : ℤ
  pub renew_deadline : ℤ
  pub retry_period : ℤ

pub record DrainHelper : Type 0 where
  pub node_name : String
  pub drainer : Drainer
  pub lease_lock : LeaseLock
  pub leader_election_config : LeaderElectionConfig

unfoldable pub new_drain_helper : (String → String) → String → String → DrainHelper
new_drain_helper getenv node_name namespace =
    let drain_timeout = setting (getenv "DRAIN_TIMEOUT_SECONDS") drain_helper_timeout_default in
    let lease_dur = setting (getenv "LEASE_DURATION_SECONDS") lease_duration_default in
    let lock : LeaseLock = record {
      name = "n3000-daemon-lease";
      namespace = namespace;
      identity = node_name;
    } in
    record {
      node_name = node_name;
      drainer = record {
        force = true;
        ignore_all_daemon_sets = true;
        delete_empty_dir_data = true;
        grace_period_seconds = negsuc 0;
        timeout = seconds drain_timeout;
      };
      lease_lock = lock;
      leader_election_config = record {
        lock = lock;
        release_on_cancel = true;
        lease_duration = seconds lease_dur;
        renew_deadline = seconds (pos 15);
        retry_period = seconds (pos 5);
      };
    }

too_large : parse_or_default "9223372036854775808" (pos 90) ≡ pos 90
unfolding parse_or_default parse_signed
too_large = refl
