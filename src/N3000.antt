-- ===== src/N3000.antt =====
-- N3000/pkg/daemon: the daemon that programs the FPGAs and the network controllers of the cards of one
-- node. What it uses of the node is a parameter: commands, files, the network, MD5 and CSV of Go's
-- library, and floating-point numbers, over an unknown state.
pub mod Images
pub mod Bmc
pub mod Temperature
pub mod Program
pub mod Nics
pub mod Flash
pub mod Reconcile
pub mod Memory
mod Tests
use openshift_operator.Base.{ℕ, Bool, String, List, Result, Exec, pure, Floats, if◌then◌else◌}
use openshift_operator.Fortville.{Nvm, Token}

-- The answer to an HTTP request; `body` names the body, which is yet to be read.
pub record Response : Type 0 where
  pub status_code : ℕ
  pub status : String
  pub body : String

pub record Node : Type 1 where
  pub State : Type 0
  pub floats : Floats
  pub getenv : String → String
  -- exec.Command(name, args...).CombinedOutput() and Run()
  pub combined_output : String → List String → Exec State String
  pub run : String → List String → Exec State (Unit {0})
  -- os.Stat, os.MkdirAll, os.Create, os.Remove, os.Open, and os.Lstat with the test for a link
  pub stat : String → Exec State (Unit {0})
  pub mkdir_all : String → Exec State (Unit {0})
  pub create : String → Exec State (Unit {0})
  pub remove : String → Exec State (Unit {0})
  pub open_file : String → Exec State (Unit {0})
  pub is_symlink : String → Exec State Bool
  -- io.Copy from an open file into a hash, and hex.EncodeToString of the MD5 sum
  pub read_all : String → Exec State String
  pub md5_hex : String → String
  -- http.Get, and io.Copy of a body into the created file
  pub http_get : String → Exec State Response
  pub copy_body : String → String → Exec State (Unit {0})
  -- csv.Reader.ReadAll of a text with a space as the comma
  pub read_csv : String → Result (List (List String))
  -- The size of the status file of an update, and its tokens
  pub size : Exec State ℕ
  pub tokens : State → List Token

module _ (N : Node) where
  open N use {State}

  unfoldable pub run_exec : String → List String → Bool → Exec State String
  run_exec name args dry_run = if dry_run then pure "" else N.combined_output name args

  unfoldable pub run_exec_with_log : String → List String → Bool → Exec State (Unit {0})
  run_exec_with_log name args dry_run = if dry_run then pure tt else N.run name args

  -- What the loop of `flashMac` uses of the node.
  abbrev pub nvm : Nvm
  nvm = record {
    State = State;
    nvmupdate = N.run "./nvmupdate64e";
    rsu = N.run "rsu";
    open_file = N.open_file;
    size = N.size;
    tokens = N.tokens;
  }
