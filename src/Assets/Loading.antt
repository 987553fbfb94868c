-- ===== src/Assets/Loading.antt =====
-- The theorems about `LoadAndDeploy`: what loading leaves alone, and what the deployment then leaves on
-- the cluster.
use openshift_operator.Base.{
  ◌≡◌, ◌≢◌, refl, ◌∙◌, arith, Bool, true, false, not, String, List, [], ◌∷◌, All, Result, ok, err,
  pure, handle, branch, Keeps, bind-Keeps, if-Keeps,
}
use openshift_operator.Assets.{Gvk, KubeObject, Asset, Manager, Vars}
use openshift_operator.Assets.Templates.{
  add_environ, build_template_vars, load_from_file, load_asset, after_loaded, load_all, load,
  deploy_loaded, load_and_deploy,
}
use openshift_operator.Assets.Laws.{id_of, IsCluster, IsDeployed, AreDistinct}
use openshift_operator.Assets.Deploying.{all_objects, deploy-Keeps, deploy-IsDeployed}
use openshift_operator.Api.{Key}

-- The objects of assets, as they are loaded.
unfoldable pub loaded :
    (M : Manager) → Bool → List (Asset M.Body) → M.State → List (KubeObject M.Body)
loaded M b as' s = all_objects (load M b as' s).1.0

module _ (M : Manager) (C : IsCluster M) where
  open M use {State, Body}
  open C use {stored}

  build_template_vars-Keeps :
      (i : Gvk × Key) (b : Bool) → Keeps (stored i) (build_template_vars M b)
  unfolding build_template_vars
  build_template_vars-Keeps i b =
      if-Keeps (stored i) (not b) (pure (add_environ M.env_prefix M.environ [])) _ (λ s. refl)
        (bind-Keeps (stored i) M.list_kernels _ (C.kernels_keeps i) (λ kernels s. refl))

  load_from_file-Keeps :
      (i : Gvk × Key) (a : Asset Body) (s : State)
      → stored i (load_from_file M a s).1.1 ≡ stored i s
  unfolding load_from_file
  load_from_file-Keeps i a s = by_result (M.read_file (M.clean a.path) s).0 refl
    where
      by_result :
          (r : Result String)
          → (M.read_file (M.clean a.path) s).0 ≡ r
          → stored i (load_from_file M a s).1.1 ≡ stored i s
      by_result (ok text) e =
          rw (load_from_file, e, handle, branch) (C.file_keeps (M.clean a.path) i s)
      by_result (err x) e =
          rw (load_from_file, e, handle, branch) (C.file_keeps (M.clean a.path) i s)

  load_asset-Keeps :
      (i : Gvk × Key) (a : Asset Body) (s : State) → stored i (load_asset M a s).1.1 ≡ stored i s
  unfolding load_asset
  load_asset-Keeps i a s = by_result (M.is_dir (M.clean a.path) s).0 refl
    where
      t : State
      t = (M.is_dir (M.clean a.path) s).1

      asked : stored i t ≡ stored i s
      asked = C.dir_keeps (M.clean a.path) i s

      by_result :
          (r : Result Bool)
          → (M.is_dir (M.clean a.path) s).0 ≡ r
          → stored i (load_asset M a s).1.1 ≡ stored i s
      by_result (ok true) e = rw (load_asset, e, handle, branch) asked
      by_result (ok false) e =
          rw (load_asset, e, handle, branch)
            (load_from_file-Keeps i (record a { path = M.clean a.path }) t ∙ asked)
      by_result (err x) e = rw (load_asset, e, handle, branch) asked

  load_all-Keeps :
      (i : Gvk × Key) (vars : Vars) (as' : List (Asset Body)) (s : State)
      → stored i (load_all M vars as' s).1.1 ≡ stored i s
  unfolding load_all after_loaded
  load_all-Keeps i vars [] s = refl
  load_all-Keeps i vars (a ∷ as') s =
      by_turn (load_asset M a' s) (load_asset-Keeps i a' s) (λ t. load_all-Keeps i vars as' t)
    where
      a' : Asset Body
      a' = record a { substitutions = vars }

      by_turn :
          (r : Result (Unit {0}) × (Asset Body × State))
          → stored i r.1.1 ≡ stored i s
          → ((t : State) → stored i (load_all M vars as' t).1.1 ≡ stored i t)
          → stored i (after_loaded M as' (load_all M vars as') r).1.1 ≡ stored i s
      by_turn (ok u, (b, t)) kept rest = rest t ∙ kept
      by_turn (err e, (b, t)) kept rest = kept

  load-Keeps :
      (i : Gvk × Key) (b : Bool) (as' : List (Asset Body)) (s : State)
      → stored i (load M b as' s).1.1 ≡ stored i s
  unfolding load
  load-Keeps i b as' s = by_result (build_template_vars M b s).0 refl
    where
      t : State
      t = (build_template_vars M b s).1

      by_result :
          (r : Result Vars)
          → (build_template_vars M b s).0 ≡ r
          → stored i (load M b as' s).1.1 ≡ stored i s
      by_result (ok vars) e =
          rw (load, e, handle, branch)
            (load_all-Keeps i vars as' t ∙ build_template_vars-Keeps i b s)
      by_result (err x) e = rw (load, e, handle, branch) (build_template_vars-Keeps i b s)

  pub load_and_deploy-Keeps :
      (i : Gvk × Key) (b : Bool) (as' : List (Asset Body)) (s : State)
      → All (λ p. id_of p ≢ i) (loaded M b as' s)
      → stored i (load_and_deploy M b as' s).1.1 ≡ stored i s
  unfolding load_and_deploy deploy_loaded loaded
  load_and_deploy-Keeps i b as' s h = after_load (load M b as' s) h (load-Keeps i b as' s)
    where
      after_load :
          (r : Result (Unit {0}) × (List (Asset Body) × State))
          → All (λ p. id_of p ≢ i) (all_objects r.1.0)
          → stored i r.1.1 ≡ stored i s
          → stored i (deploy_loaded M r).1.1 ≡ stored i s
      after_load (ok u, (bs, t)) g kept = deploy-Keeps M C i bs t g ∙ kept
      after_load (err e, (bs, t)) g kept = kept

  -- Where assets are loaded and deployed without an error, and no two of the objects that were loaded
  -- have the same kind and name, the cluster has each of them under its kind and name, with its owner,
  -- in all that it asks for but the resource version.
  pub load_and_deploy-IsDeployed :
      (b : Bool) (as' : List (Asset Body)) (s : State)
      → AreDistinct M C (loaded M b as' s)
      → (load_and_deploy M b as' s).0 ≡ ok tt
      → All (IsDeployed M C (load_and_deploy M b as' s).1.1) (loaded M b as' s)
  unfolding load_and_deploy deploy_loaded loaded
  load_and_deploy-IsDeployed b as' s d h = after_load (load M b as' s) d h
    where
      after_load :
          (r : Result (Unit {0}) × (List (Asset Body) × State))
          → AreDistinct M C (all_objects r.1.0)
          → (deploy_loaded M r).0 ≡ ok tt
          → All (IsDeployed M C (deploy_loaded M r).1.1) (all_objects r.1.0)
      after_load (ok u, (bs, t)) g e = deploy-IsDeployed M C bs t g e
      after_load (err x, (bs, t)) g e = absurd (ground (arith, e))
