-- ===== src/Programs/Daemons/Laws.antt =====
-- What the API server has when the N3000 daemon starts its manager.
use openshift_operator.Base.{
  ◌≡◌, refl, sym, ap, ◌∙◌, arith, true, false, String, ◌==◌, Bool-cases, inl, inr, is_some, Option,
  Result, ok, err, Exec, branch, is_not_found, ◌>>◌, bind-eq-ok,
}
use openshift_operator.Api.{Key}
use openshift_operator.Cluster.Fpga.{N3000Node}
use openshift_operator.N3000.Reconcile.{Reconciler, create_empty_n3000_node_if_needed}
use openshift_operator.Programs.{or_exit, finish}
use openshift_operator.Programs.Daemons.{
  Libraries, need, n3000_reconciler, prepare_n3000_daemon, n3000_daemon_main,
}

-- The API server: it has a resource that Get returns and one that was created.
pub record HasN3000Nodes (R : Reconciler) : Type 0 where
  pub stored : Key → R.node.State → Option N3000Node
  pub get_found :
      (k : Key) (s : R.node.State) (n : N3000Node)
      → (R.get k s).0 ≡ ok n
      → is_some (stored k (R.get k s).1) ≡ true
  pub create_ok :
      (n : N3000Node) (s : R.node.State)
      → (R.create n s).0 ≡ ok tt
      → is_some (stored n.key (R.create n s).1) ≡ true

module _ (R : Reconciler) (H : HasN3000Nodes R) where
  open R use {node}
  open H use {stored}

  create_empty_n3000_node-stored :
      (s : node.State)
      → (create_empty_n3000_node_if_needed R s).0 ≡ ok tt
      → is_some (
          stored
            (record { namespace = R.namespace; name = R.node_name })
            (create_empty_n3000_node_if_needed R s).1)
        ≡ true
  unfolding create_empty_n3000_node_if_needed
  create_empty_n3000_node-stored s h = by_result (R.get key s).0 refl
    where
      key : Key
      key = record { namespace = R.namespace; name = R.node_name }

      by_result :
          (r : Result N3000Node)
          → (R.get key s).0 ≡ r
          → is_some (stored key (create_empty_n3000_node_if_needed R s).1) ≡ true
      by_result (ok n) e = ground (arith, e, H.get_found key s n)
      by_result (err x) e = elim (Bool-cases (is_not_found x)) [
        | inl f ↦
            rw (create_empty_n3000_node_if_needed, e, branch, f)
              (H.create_ok _ (R.get key s).1 (ground (arith, e, f, h)))
        | inr f ↦ absurd (ground (arith, e, f, h))
      ]

-- The variable of a step that has ended without an error is not empty.
need_ok :
    {S : Type 0} (name value : String) (s : S)
    → (need name value s).0 ≡ ok tt
    → (value == "") ≡ false
unfolding need
need_ok name value s h = elim (Bool-cases (value == "")) [
  | inl e ↦ absurd (ground (arith, e, h))
  | inr e ↦ e
]

module _ (R : Reconciler) (L : Libraries R.node.State)
    (H : HasN3000Nodes (n3000_reconciler R L)) where
  open R use {node}

  variables_ok :
      (s : node.State)
      → (prepare_n3000_daemon R L s).0 ≡ ok tt
      → ((L.getenv "NODENAME" == "") ≡ false) × ((L.getenv "N3000_NAMESPACE" == "") ≡ false)
  unfolding prepare_n3000_daemon need
  variables_ok s h = elim (Bool-cases (L.getenv "NODENAME" == "")) [
    | inl e ↦ absurd (ground (arith, e, h))
    | inr e ↦ elim (Bool-cases (L.getenv "N3000_NAMESPACE" == "")) [
      | inl f ↦ absurd (ground (arith, e, f, h))
      | inr f ↦ (e, f)
    ]
  ]

  -- Where what the N3000 daemon does before it starts its manager ends without an error, the names of
  -- the node and of the namespace are not empty, the API server has the resource of this node in this
  -- namespace, and main goes on with the start of the manager.
  pub prepare_n3000_daemon_ok :
      (s : node.State)
      → (prepare_n3000_daemon R L s).0 ≡ ok tt
      → ((L.getenv "NODENAME" == "") ≡ false)
        × ((L.getenv "N3000_NAMESPACE" == "") ≡ false)
        × (is_some (
              H.stored
                (record { namespace = L.getenv "N3000_NAMESPACE"; name = L.getenv "NODENAME" })
                (prepare_n3000_daemon R L s).1)
            ≡ true)
        × (n3000_daemon_main R L s ≡ or_exit L.start (λ _. finish) (prepare_n3000_daemon R L s).1)
  unfolding prepare_n3000_daemon n3000_daemon_main or_exit
  prepare_n3000_daemon_ok s h =
      let create : Exec node.State (Unit {0}) =
        create_empty_n3000_node_if_needed (n3000_reconciler R L) in
      let setup : Exec node.State (Unit {0}) =
        need "NODENAME" (L.getenv "NODENAME")
        >> need "N3000_NAMESPACE" (L.getenv "N3000_NAMESPACE")
        >> L.get_config
        >> L.new_clientset
        >> L.new_client
        >> L.new_manager (L.getenv "N3000_NAMESPACE")
        >> L.setup_with_manager in
      let (u, ready, at) = bind-eq-ok setup (λ _. create) s h in
      let (node_named, namespace_named) = variables_ok s h in
      (
        node_named,
        namespace_named,
        there (setup s).1 (prepare_n3000_daemon R L s) at h,
        ground (arith, h),
      )
    where
      there :
          (t : node.State) (r : Result (Unit {0}) × node.State)
          → r ≡ create_empty_n3000_node_if_needed (n3000_reconciler R L) t
          → r.0 ≡ ok tt
          → is_some (
              H.stored
                (record { namespace = L.getenv "N3000_NAMESPACE"; name = L.getenv "NODENAME" })
                r.1)
            ≡ true
      there t r e h = rw e (
          create_empty_n3000_node-stored (n3000_reconciler R L) H t
            (sym (ap (λ (x : Result (Unit {0}) × node.State). x.0) e) ∙ h))
