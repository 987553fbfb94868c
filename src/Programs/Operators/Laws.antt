-- ===== src/Programs/Operators/Laws.antt =====
-- What the cluster has when an operator starts its manager.
use openshift_operator.Base.{
  ◌≡◌, ◌≢◌, refl, sym, ap, ◌∙◌, arith, String, List, [], ◌∷◌, ◌++◌, map, All, All-append, All-split,
  some, Result, ok, Exec, ◌>>◌, bind-eq-ok, then_keeps_at,
}
use openshift_operator.Api.{Key}
use openshift_operator.Assets.{Gvk, KubeObject}
use openshift_operator.Assets.Laws.{id_of, IsCluster, IsDeployed, AreDistinct}
use openshift_operator.Assets.Deploying.{AreDistinct-split, stay-IsDeployed}
use openshift_operator.Assets.Loading.{loaded, load_and_deploy-Keeps, load_and_deploy-IsDeployed}
use openshift_operator.Programs.{or_exit, finish}
use openshift_operator.Programs.Names.{operator_deployment_name}
use openshift_operator.Programs.Operators.{
  Round, Operator, Platform, asset_of, owned, deploy_round, deploy_rounds, set_up, prepare,
  operator_main,
}

module _ (P : Platform) (O : Operator) where
  open P use {manager, Deployment}

  -- The objects of the assets of all rounds, each as it is loaded after the rounds before.
  unfoldable pub loaded_objects :
      Deployment → List Round → manager.State → List (KubeObject manager.Body)
  loaded_objects owner [] s = []
  loaded_objects owner (r ∷ rs) s =
      loaded (owned P O owner) r.set_kernel_var (map (asset_of P) r.files) s
      ++ loaded_objects owner rs (deploy_round P O owner r s).1

  module _ (owner : Deployment) (C : IsCluster (owned P O owner)) where
    open C use {stored}

    abbrev Distinct : List (KubeObject manager.Body) → Type 0
    Distinct = AreDistinct (owned P O owner) C

    abbrev Deployed : manager.State → KubeObject manager.Body → Type 0
    Deployed = IsDeployed (owned P O owner) C

    deploy_round-Keeps :
        (i : Gvk × Key) (r : Round) (s : manager.State)
        → All
            (λ p. id_of p ≢ i)
            (loaded (owned P O owner) r.set_kernel_var (map (asset_of P) r.files) s)
        → stored i (deploy_round P O owner r s).1 ≡ stored i s
    unfolding deploy_round
    deploy_round-Keeps i r s h =
        load_and_deploy-Keeps (owned P O owner) C i r.set_kernel_var (map (asset_of P) r.files) s h

    deploy_rounds-Keeps :
        (i : Gvk × Key) (rs : List Round) (s : manager.State)
        → All (λ p. id_of p ≢ i) (loaded_objects owner rs s)
        → stored i (deploy_rounds P O owner rs s).1 ≡ stored i s
    unfolding deploy_rounds loaded_objects
    deploy_rounds-Keeps i [] s h = refl
    deploy_rounds-Keeps i (r ∷ rs) s h =
        let (here, there) =
          All-split (λ p. id_of p ≢ i)
            (loaded (owned P O owner) r.set_kernel_var (map (asset_of P) r.files) s)
            (loaded_objects owner rs (deploy_round P O owner r s).1) h in
        then_keeps_at (stored i) (deploy_round P O owner r) (deploy_rounds P O owner rs) s
          (deploy_round-Keeps i r s here)
          (deploy_rounds-Keeps i rs (deploy_round P O owner r s).1 there)

    deploy_round-IsDeployed :
        (r : Round) (s : manager.State)
        → Distinct (loaded (owned P O owner) r.set_kernel_var (map (asset_of P) r.files) s)
        → (deploy_round P O owner r s).0 ≡ ok tt
        → All
            (Deployed (deploy_round P O owner r s).1)
            (loaded (owned P O owner) r.set_kernel_var (map (asset_of P) r.files) s)
    unfolding deploy_round
    deploy_round-IsDeployed r s d h =
        load_and_deploy-IsDeployed (owned P O owner) C r.set_kernel_var (map (asset_of P) r.files) s
          d h

    pub deploy_rounds-IsDeployed :
        (rs : List Round) (s : manager.State)
        → Distinct (loaded_objects owner rs s)
        → (deploy_rounds P O owner rs s).0 ≡ ok tt
        → All (Deployed (deploy_rounds P O owner rs s).1) (loaded_objects owner rs s)
    unfolding deploy_rounds loaded_objects
    deploy_rounds-IsDeployed [] s d h = tt
    deploy_rounds-IsDeployed (r ∷ rs) s d h =
        let round : Exec manager.State (Unit {0}) = deploy_round P O owner r in
        let rest : Exec manager.State (Unit {0}) = deploy_rounds P O owner rs in
        let first : List (KubeObject manager.Body) =
          loaded (owned P O owner) r.set_kernel_var (map (asset_of P) r.files) s in
        let later : List (KubeObject manager.Body) = loaded_objects owner rs (round s).1 in
        let (left, right, apart) = AreDistinct-split (owned P O owner) C first later d in
        let (u, e, at) = bind-eq-ok round (λ _. rest) s h in
        let done : (rest (round s).1).0 ≡ ok tt =
          sym (ap (λ (x : Result (Unit {0}) × manager.State). x.0) at) ∙ h in
        let final : (deploy_rounds P O owner (r ∷ rs) s).1 ≡ (rest (round s).1).1 =
          ap (λ (x : Result (Unit {0}) × manager.State). x.1) at in
        rw final (
          All-append (Deployed (rest (round s).1).1) first later
            (stay-IsDeployed (owned P O owner) C later first (round s).1 (rest (round s).1).1
              (λ i away. deploy_rounds-Keeps i rs (round s).1 away) apart
              (deploy_round-IsDeployed r s left e))
            (deploy_rounds-IsDeployed rs (round s).1 right done))

module _ (P : Platform) (O : Operator) where
  open P use {manager, Deployment}

  -- The key under which the deployment of the operator is looked for, and the state then and after.
  unfoldable pub owner_key : String → Key
  owner_key name = record { namespace = P.getenv O.namespace_variable; name = name }

  abbrev pub at_rounds : String → manager.State → manager.State
  at_rounds name s = (P.get_deployment (owner_key name) (set_up P O s).1).1

  -- Where what an operator does before it starts its manager ends without an error, and no two of the
  -- objects that were loaded in its rounds have the same kind and name, it has found its deployment,
  -- the cluster has every object of every round, owned by this deployment where they share a
  -- namespace, in all that the object asks for but the resource version, and main goes on with the
  -- start of the manager.
  pub prepare-IsDeployed :
      (C : (owner : Deployment) → IsCluster (owned P O owner)) (name : String) (s : manager.State)
      → operator_deployment_name (P.getenv "NAME") ≡ some name
      → ((owner : Deployment)
          → AreDistinct
              (owned P O owner)
              (C owner)
              (loaded_objects P O owner O.rounds (at_rounds name s)))
      → (prepare P O name s).0 ≡ ok tt
      → (owner : Deployment) × ((P.get_deployment (owner_key name) (set_up P O s).1).0 ≡ ok owner)
        × All
            (IsDeployed (owned P O owner) (C owner) (prepare P O name s).1)
            (loaded_objects P O owner O.rounds (at_rounds name s))
        × (operator_main P O s ≡ or_exit P.start (λ _. finish) (prepare P O name s).1)
  unfolding prepare owner_key operator_main or_exit
  prepare-IsDeployed C name s named distinct h =
      let get : Exec manager.State Deployment = P.get_deployment (owner_key name) in
      let rounds : Deployment → Exec manager.State (Unit {0}) =
        λ owner. deploy_rounds P O owner O.rounds in
      let (owner, found, at) = bind-eq-ok (set_up P O >> get) rounds s h in
      let (u, ready, at_get) = bind-eq-ok (set_up P O) (λ _. get) s found in
      let t : manager.State = (get (set_up P O s).1).1 in
      let got : (get (set_up P O s).1).0 ≡ ok owner =
        sym (ap (λ (x : Result Deployment × manager.State). x.0) at_get) ∙ found in
      let same : prepare P O name s ≡ rounds owner t =
        at ∙ ap (λ (x : Result Deployment × manager.State). rounds owner x.1) at_get in
      let deployed : (rounds owner t).0 ≡ ok tt =
        sym (ap (λ (x : Result (Unit {0}) × manager.State). x.0) same) ∙ h in
      (
        owner,
        got,
        moved owner (loaded_objects P O owner O.rounds t) (prepare P O name s).1 (rounds owner t).1
            (ap (λ (x : Result (Unit {0}) × manager.State). x.1) same)
            (deploy_rounds-IsDeployed P O owner (C owner) O.rounds t (distinct owner) deployed),
        ground (arith, named, h),
      )
    where
      moved :
          (owner : Deployment) (os : List (KubeObject manager.Body)) (v w : manager.State)
          → v ≡ w
          → All (IsDeployed (owned P O owner) (C owner) w) os
          → All (IsDeployed (owned P O owner) (C owner) v) os
      moved owner os v w e h = rw e h
