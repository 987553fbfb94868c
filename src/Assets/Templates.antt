-- ===== src/Assets/Templates.antt =====
-- common/pkg/assets: loading, the variables of the templates and the objects of the rendered text.
use openshift_operator.Base.{
  Bool, not, String, List, [], ◌∷◌, ◌++◌, split, has_prefix, put, failure, Result, ok, err, Exec,
  pure, handle, ◌>>=◌, if◌then◌else◌,
}
use openshift_operator.Assets.{KubeObject, Vars, Asset, Manager, Step, deploy}

-- One turn of the loop over the environment, on the parts of a variable.
unfoldable pub add_pair : String → List String → Vars → Vars
add_pair prefix (name ∷ (value ∷ [])) vars =
    if has_prefix name prefix then put name value vars else vars
add_pair prefix parts vars = vars

unfoldable pub add_environ : String → List String → Vars → Vars
add_environ prefix [] vars = vars
add_environ prefix (pair ∷ pairs) vars =
    add_environ prefix pairs (add_pair prefix (split pair "=") vars)

module _ (M : Manager) where
  open M use {State, Body}

  -- The variable of the kernel, from the kernels of the nodes.
  unfoldable pub add_kernel : Vars → List String → Result Vars
  add_kernel vars [] = err (failure "empty node list while building template vars")
  add_kernel vars (kernel ∷ kernels) = ok (put "kernel" kernel vars)

  unfoldable pub build_template_vars : Bool → Exec State Vars
  build_template_vars set_kernel_var =
      let vars = add_environ M.env_prefix M.environ [] in
      if not set_kernel_var
      then pure vars
      else (M.list_kernels >>= λ kernels s. (add_kernel vars kernels, s))

  -- The loop over the definitions of objects: those before an error are kept.
  unfoldable pub decode_all :
      List String → List (KubeObject Body) → Result (Unit {0}) × List (KubeObject Body)
  decode_all [] objs = (ok tt, objs)
  decode_all (d ∷ ds) objs = elim (M.decode d) [
    | err e ↦ (err e, objs)
    | ok obj ↦ decode_all ds (objs ++ (obj ∷ []))
  ]

  -- The template of the text, parsed and executed.
  unfoldable pub render : String → Vars → Result String
  render content vars = elim (M.parse content) [ err e ↦ err e | ok t ↦ t vars ]

  unfoldable pub load_rendered : Asset Body → Result String → Result (Unit {0}) × Asset Body
  load_rendered a (err e) = (err e, a)
  load_rendered a (ok text) =
      let (r, objs) = decode_all (split text "\n---") a.objects in (r, record a { objects = objs })

  unfoldable pub load_from_file : Asset Body → Step M (Asset Body)
  load_from_file a =
      handle (M.read_file (M.clean a.path))
        (λ content s.
          let (r, a') = load_rendered a (render content a.substitutions) in (r, (a', s)))
        (λ e s. (err e, (a, s)))

  unfoldable pub load_asset : Asset Body → Step M (Asset Body)
  load_asset a =
      let a' : Asset Body = record a { path = M.clean a.path } in
      handle (M.is_dir a'.path)
        (λ dir.
          if dir then (λ s. (err (failure "not supported yet"), (a', s))) else load_from_file a')
        (λ e s. (err e, (a', s)))

  -- The next turns of the loop of `Load`, after one.
  unfoldable pub after_loaded :
      List (Asset Body)
      → Step M (List (Asset Body))
      → Result (Unit {0}) × (Asset Body × State)
      → Result (Unit {0}) × (List (Asset Body) × State)
  after_loaded as' rest (ok u, (a, s)) = let (r, (bs, s')) = rest s in (r, (a ∷ bs, s'))
  after_loaded as' rest (err e, (a, s)) = (err e, (a ∷ as', s))

  unfoldable pub load_all : Vars → List (Asset Body) → Step M (List (Asset Body))
  load_all vars [] s = (ok tt, ([], s))
  load_all vars (a ∷ as') s =
      let rest = load_all vars as' in
      after_loaded as' rest (load_asset (record a { substitutions = vars }) s)

  unfoldable pub load : Bool → List (Asset Body) → Step M (List (Asset Body))
  load set_kernel_var as' =
      handle (build_template_vars set_kernel_var) (λ vars. load_all vars as')
        (λ e s. (err e, (as', s)))

  -- `LoadAndDeploy`, after `Load`.
  unfoldable pub deploy_loaded :
      Result (Unit {0}) × (List (Asset Body) × State)
      → Result (Unit {0}) × (List (Asset Body) × State)
  deploy_loaded (err e, (as', s)) = (err e, (as', s))
  deploy_loaded (ok u, (as', s)) = deploy M as' s

  unfoldable pub load_and_deploy : Bool → List (Asset Body) → Step M (List (Asset Body))
  load_and_deploy set_kernel_var as' s = deploy_loaded (load set_kernel_var as' s)
