-- ===== src/Programs/Operators.antt =====
-- N3000/main.go and sriov-fec/main.go: `main` of the two operators, which differ in their constants and
-- in the assets that they deploy. The controller, the manager, the client and the environment are
-- parameters, with what the manager of the assets uses.
pub mod Laws
use openshift_operator.Base.{
  ℕ, Bool, true, false, String, List, [], ◌∷◌, map, none, some, Result, Exec, pure, ◌>>=◌, ◌>>◌,
}
use openshift_operator.Api.{Key}
use openshift_operator.Assets.{KubeObject, Asset, Manager}
use openshift_operator.Assets.Templates.{load_and_deploy}
use openshift_operator.Programs.{Ended, panicked, or_exit, finish}
use openshift_operator.Programs.Names.{operator_deployment_name}

-- An asset of a main program: its path and the retries of its `BlockingReadiness`.
pub record AssetFile : Type 0 where
  pub path : String
  pub retries : ℕ

-- One call of `LoadAndDeploy`.
pub record Round : Type 0 where
  pub set_kernel_var : Bool
  pub files : List AssetFile

-- What the two programs differ in.
pub record Operator : Type 0 where
  pub leader_election_id : String
  pub namespace_variable : String
  pub env_prefix : String
  pub rounds : List Round

abbrev pub n3000_operator : Operator
n3000_operator = record {
  leader_election_id = "f3417634.intel.com";
  namespace_variable = "N3000_NAMESPACE";
  env_prefix = "N3000_";
  rounds =
      record {
        set_kernel_var = false;
        files = record { path = "assets/100-labeler.yaml"; retries = 30 } ∷ [];
      }
      ∷ record {
        set_kernel_var = true;
        files =
            record { path = "assets/200-driver-container.yaml"; retries = 30 }
            ∷ record { path = "assets/300-monitoring.yaml"; retries = 0 }
            ∷ record { path = "assets/400-daemon.yaml"; retries = 30 }
            ∷ [];
      }
      ∷ [];
}

abbrev pub sriov_fec_operator : Operator
sriov_fec_operator = record {
  leader_election_id = "98e78623.intel.com";
  namespace_variable = "SRIOV_FEC_NAMESPACE";
  env_prefix = "SRIOV_FEC_";
  rounds =
      record {
        set_kernel_var = false;
        files =
            record { path = "assets/100-labeler.yaml"; retries = 0 }
            ∷ record { path = "assets/200-device-plugin.yaml"; retries = 0 }
            ∷ record { path = "assets/300-daemon.yaml"; retries = 30 }
            ∷ [];
      }
      ∷ [];
}

pub record Platform : Type 1 where
  -- What the manager of the assets uses, but for the owner
  pub manager : Manager
  pub Deployment : Type 0
  pub getenv : String → String
  -- ctrl.GetConfigOrDie, whose failure is os.Exit(1) too, and ctrl.NewManager, from its
  -- LeaderElectionID
  pub get_config : Exec manager.State (Unit {0})
  pub new_manager : String → Exec manager.State (Unit {0})
  -- SetupWithManager of the operator's controller, AddHealthzCheck and AddReadyzCheck
  pub setup_with_manager : Exec manager.State (Unit {0})
  pub add_healthz_check : String → Exec manager.State (Unit {0})
  pub add_readyz_check : String → Exec manager.State (Unit {0})
  -- client.New, and Get of a Deployment
  pub new_client : Exec manager.State (Unit {0})
  pub get_deployment : Key → Exec manager.State Deployment
  -- controllerutil.SetControllerReference, from the owner and its namespace
  pub namespace_of : Deployment → String
  pub set_controller_reference :
      Deployment → KubeObject manager.Body → Result (KubeObject manager.Body)
  -- mgr.Start
  pub start : Exec manager.State (Unit {0})

module _ (P : Platform) where
  open P use {manager, Deployment}

  -- An asset as it is before it is loaded.
  unfoldable pub asset_of : AssetFile → Asset manager.Body
  asset_of f = record { path = f.path; retries = f.retries; substitutions = []; objects = [] }

  abbrev pub owned : Operator → Deployment → Manager
  owned O owner = record manager {
    env_prefix = O.env_prefix;
    owner_namespace = P.namespace_of owner;
    set_controller_reference = P.set_controller_reference owner;
  }

  module _ (O : Operator) where
    unfoldable pub deploy_round : Deployment → Round → Exec manager.State (Unit {0})
    deploy_round owner r s =
        let (result, (as', s')) =
          load_and_deploy (owned O owner) r.set_kernel_var (map asset_of r.files) s in
        (result, s')

    unfoldable pub deploy_rounds : Deployment → List Round → Exec manager.State (Unit {0})
    deploy_rounds owner [] = pure tt
    deploy_rounds owner (r ∷ rs) = let rest = deploy_rounds owner rs in deploy_round owner r >> rest

    -- What comes before the deployment of the operator is looked for.
    unfoldable pub set_up : Exec manager.State (Unit {0})
    set_up =
        P.get_config
        >> P.new_manager O.leader_election_id
        >> P.setup_with_manager
        >> P.add_healthz_check "health"
        >> P.add_readyz_check "check"
        >> P.new_client

    -- What `main` does before it starts the manager.
    unfoldable pub prepare : String → Exec manager.State (Unit {0})
    prepare name =
        set_up
        >> P.get_deployment (record { namespace = P.getenv O.namespace_variable; name = name })
        >>= λ owner. deploy_rounds owner O.rounds

    -- `init` and `main`
    unfoldable pub operator_main : manager.State → Ended × manager.State
    operator_main s = elim (operator_deployment_name (P.getenv "NAME")) [
      | none ↦ (panicked, s)
      | some name ↦ or_exit (prepare name) (λ _. or_exit P.start (λ _. finish)) s
    ]

-- The two programs
unfoldable pub n3000_main : (P : Platform) → P.manager.State → Ended × P.manager.State
n3000_main P = operator_main P n3000_operator

unfoldable pub sriov_fec_main : (P : Platform) → P.manager.State → Ended × P.manager.State
sriov_fec_main P = operator_main P sriov_fec_operator
