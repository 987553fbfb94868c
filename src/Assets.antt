-- ===== src/Assets.antt =====
-- common/pkg/assets/asset.go and manager.go: the manager that loads the objects of the operator from
-- templates and deploys them. The environment, the files, templates, the YAML decoder, the Kubernetes
-- client and the retry loop are parameters.
pub mod Laws
pub mod Deploying
pub mod Loading
pub mod Memory
pub mod Templates
mod Tests
use openshift_operator.Base.{
  ℕ, Bool, not, String, List, [], ◌∷◌, ◌==◌, eqb, is_not_found, Result, ok, err, Exec, pure, raise,
  handle, ◌>>=◌, ◌>>◌, if◌then◌else◌,
}
use openshift_operator.Api.{Key}

-- `schema.GroupVersionKind`
pub record Gvk : Type 0 where
  pub group : String
  pub version : String
  pub kind : String

-- An `unstructured.Unstructured`: what the code reads and sets of it, and the rest.
pub record KubeObject (Body : Type 0) : Type 0 where
  pub gvk : Gvk
  pub key : Key
  pub resource_version : String
  pub body : Body

abbrev pub Vars : Type 0
Vars = List (String × String)

-- `Asset` with its `ReadinessPollConfig`, whose delay the retry loop is given too.
pub record Asset (Body : Type 0) : Type 0 where
  pub path : String
  pub retries : ℕ
  pub substitutions : Vars
  pub objects : List (KubeObject Body)

pub record Manager : Type 1 where
  pub State : Type 0
  pub Body : Type 0
  pub env_prefix : String
  pub owner_namespace : String
  -- os.Environ()
  pub environ : List String
  -- List of the nodes with an accelerator, as their kernel versions
  pub list_kernels : Exec State (List String)
  -- filepath.Clean, IsDir of os.Stat, and ioutil.ReadFile
  pub clean : String → String
  pub is_dir : String → Exec State Bool
  pub read_file : String → Exec State String
  -- The template of a text, which fails on a missing key, and the decoder
  pub parse : String → Result (Vars → Result String)
  pub decode : String → Result (KubeObject Body)
  -- controllerutil.SetControllerReference of the manager's owner
  pub set_controller_reference : KubeObject Body → Result (KubeObject Body)
  -- equality.Semantic.DeepDerivative
  pub deep_derivative : KubeObject Body → KubeObject Body → Bool
  -- The client: a write gives the object as the cluster has it then.
  pub get : Gvk → Key → Exec State (KubeObject Body)
  pub create : KubeObject Body → Exec State (KubeObject Body)
  pub update : KubeObject Body → Exec State (KubeObject Body)
  -- Get of a DaemonSet, as the number of its unavailable pods
  pub number_unavailable : Key → Exec State ℕ
  -- wait.ExponentialBackoff with a constant delay, from its number of steps
  pub exponential_backoff : ℕ → Exec State Bool → Exec State (Unit {0})

module _ (M : Manager) where
  open M use {State, Body}

  -- What a step over the objects leaves: they are changed in place.
  abbrev pub Step : Type 0 → Type 0
  Step T = State → Result (Unit {0}) × (T × State)

  unfoldable pub set_owner : KubeObject Body → Result (KubeObject Body)
  set_owner obj =
      if M.owner_namespace == obj.key.namespace then M.set_controller_reference obj else ok obj

  -- The end of a turn: the object becomes what the client gives, or stays as it is at an error.
  abbrev pub ends : KubeObject Body → Exec State (KubeObject Body) → Step (KubeObject Body)
  ends obj m = handle m (λ obj' s. (ok tt, (obj', s))) (λ e s. (err e, (obj, s)))

  -- What `createOrUpdate` does with an object that is there.
  unfoldable pub update_changed : KubeObject Body → KubeObject Body → Step (KubeObject Body)
  update_changed obj old =
      if not (M.deep_derivative obj old)
      then (let obj' : KubeObject Body = record obj { resource_version = old.resource_version } in
          ends obj' (M.update obj'))
      else ends obj (pure obj)

  unfoldable pub write_object : KubeObject Body → Step (KubeObject Body)
  write_object obj =
      handle (M.get obj.gvk obj.key) (λ old. update_changed obj old)
        (λ e. if not (is_not_found e) then ends obj (raise e) else ends obj (M.create obj))

  -- One turn of the loop of `createOrUpdate`.
  unfoldable pub create_or_update_object : KubeObject Body → Step (KubeObject Body)
  create_or_update_object obj = elim (set_owner obj) [
    | err e ↦ ends obj (raise e)
    | ok obj' ↦ write_object obj'
  ]

  -- The next turns, after one.
  unfoldable pub after_object :
      List (KubeObject Body)
      → Step (List (KubeObject Body))
      → Result (Unit {0}) × (KubeObject Body × State)
      → Result (Unit {0}) × (List (KubeObject Body) × State)
  after_object objs rest (ok u, (obj, s)) = let (r, (objs', s')) = rest s in (r, (obj ∷ objs', s'))
  after_object objs rest (err e, (obj, s)) = (err e, (obj ∷ objs, s))

  unfoldable pub create_or_update : List (KubeObject Body) → Step (List (KubeObject Body))
  create_or_update [] s = (ok tt, ([], s))
  create_or_update (obj ∷ objs) s =
      let rest = create_or_update objs in after_object objs rest (create_or_update_object obj s)

  -- The condition `f` of `waitUntilReady`.
  unfoldable pub is_ready : Key → Exec State Bool
  is_ready key = M.number_unavailable key >>= λ n. pure (eqb n 0)

  unfoldable pub wait_for : ℕ → List (KubeObject Body) → Exec State (Unit {0})
  wait_for retries [] = pure tt
  wait_for retries (obj ∷ objs) =
      let rest = wait_for retries objs in
      if obj.gvk.kind == "DaemonSet"
      then (M.exponential_backoff retries (is_ready obj.key) >> rest)
      else rest

  unfoldable pub wait_until_ready : Asset Body → Exec State (Unit {0})
  wait_until_ready a = if eqb a.retries 0 then pure tt else wait_for a.retries a.objects

  -- The turns of the loop of `Deploy` after the objects of an asset were written.
  unfoldable pub after_written :
      Asset Body
      → List (Asset Body)
      → Step (List (Asset Body))
      → Result (Unit {0}) × (List (KubeObject Body) × State)
      → Result (Unit {0}) × (List (Asset Body) × State)
  after_written a as' rest (err e, (objs, s)) = (err e, (record a { objects = objs } ∷ as', s))
  after_written a as' rest (ok u, (objs, s)) =
      let a' : Asset Body = record a { objects = objs } in
      handle (wait_until_ready a') (λ _ s1. let (r, (bs, s2)) = rest s1 in (r, (a' ∷ bs, s2)))
        (λ e s1. (err e, (a' ∷ as', s1))) s

  unfoldable pub deploy : List (Asset Body) → Step (List (Asset Body))
  deploy [] s = (ok tt, ([], s))
  deploy (a ∷ as') s =
      let rest = deploy as' in after_written a as' rest (create_or_update a.objects s)
