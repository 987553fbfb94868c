-- ===== src/Programs/Daemons/Fec.antt =====
-- What the API server has when the daemon of the accelerators starts its manager.
use openshift_operator.Base.{
  ◌≡◌, refl, sym, ap, ◌∙◌, arith, true, false, String, [], ◌==◌, Bool-cases, inl, inr, is_some,
  Option, Result, ok, err, Exec, pure, branch, is_not_found, ◌>>=◌, ◌>>◌, bind-eq-ok,
}
use openshift_operator.Api.{Key}
use openshift_operator.Cluster.Sriov.{NodeConfigObject}
use openshift_operator.Fec.Reconcile.{Daemon, create_empty_node_config_if_needed}
use openshift_operator.Fec.Inventory.{AcceleratorDiscoveryConfig}
use openshift_operator.Fec.Kernel.{Setter}
use openshift_operator.Labeler.Config.{ConfigFile, load_discovery_config}
use openshift_operator.Fec.Setup.{config_path, new_kernel_controller, new_node_config_reconciler}
use openshift_operator.Programs.{or_exit, finish}
use openshift_operator.Programs.Daemons.{
  need, SriovFecDaemon, node_config_reconciler, discovery_file, prepare_sriov_fec_daemon,
  sriov_fec_daemon_main,
}

-- The API server: it has a resource that Get returns and one whose status was updated.
pub record HasNodeConfigs (D : Daemon) : Type 0 where
  pub stored : Key → D.machine.State → Option NodeConfigObject
  pub get_found :
      (k : Key) (s : D.machine.State) (n : NodeConfigObject)
      → (D.get k s).0 ≡ ok n
      → is_some (stored k (D.get k s).1) ≡ true
  pub update_ok :
      (n : NodeConfigObject) (s : D.machine.State)
      → (D.update_status n s).0 ≡ ok tt
      → is_some (stored n.key (D.update_status n s).1) ≡ true

module _ (D : Daemon) (H : HasNodeConfigs D) where
  open D use {machine}
  open H use {stored}

  pub create_empty_node_config-stored :
      (s : machine.State)
      → (create_empty_node_config_if_needed D s).0 ≡ ok tt
      → is_some (
          stored
            (record { namespace = D.namespace; name = D.node_name })
            (create_empty_node_config_if_needed D s).1)
        ≡ true
  unfolding create_empty_node_config_if_needed
  create_empty_node_config-stored s h = by_result (D.get key s).0 refl
    where
      key : Key
      key = record { namespace = D.namespace; name = D.node_name }

      empty : NodeConfigObject
      empty = record {
        key = key;
        generation = 0;
        spec = record { physical_functions = []; drain_skip = false };
        status = record { conditions = []; inventory = record { sriov_accelerators = [] } };
      }

      by_result :
          (r : Result NodeConfigObject)
          → (D.get key s).0 ≡ r
          → is_some (stored key (create_empty_node_config_if_needed D s).1) ≡ true
      by_result (ok n) e = ground (arith, e, H.get_found key s n)
      by_result (err x) e = elim (Bool-cases (is_not_found x)) [
        | inl f ↦
            let t : machine.State = (D.get key s).1 in
            let both : ((D.create empty >> D.update_status empty) t).0 ≡ ok tt =
              ground (arith, e, f, h) in
            let (u, made, at) = bind-eq-ok (D.create empty) (λ _. D.update_status empty) t both in
            let updated : (D.update_status empty (D.create empty t).1).0 ≡ ok tt =
              sym (ap (λ (r : Result (Unit {0}) × machine.State). r.0) at) ∙ both in
            rw (create_empty_node_config_if_needed, e, branch, f)
              (ap (λ (r : Result (Unit {0}) × machine.State). is_some (stored key r.1)) at
                ∙ H.update_ok empty (D.create empty t).1 updated)
        | inr f ↦ absurd (ground (arith, e, f, h))
      ]

-- The configuration of a reconciler is the one that was read.
new_node_config_reconciler_ok :
    (F : ConfigFile) (os_release : Exec F.State (String × String)) (s : F.State)
    (made : AcceleratorDiscoveryConfig × Setter)
    → (new_node_config_reconciler F os_release s).0 ≡ ok made
    → (load_discovery_config F config_path s).0 ≡ ok made.0
unfolding new_node_config_reconciler new_kernel_controller
new_node_config_reconciler_ok F os_release s made h =
    let more : AcceleratorDiscoveryConfig → Exec F.State (AcceleratorDiscoveryConfig × Setter) =
      λ cfg. new_kernel_controller F os_release >>= λ setter. pure (cfg, setter) in
    let (cfg, read, at) = bind-eq-ok (load_discovery_config F config_path) more s h in
    let t : F.State = (load_discovery_config F config_path s).1 in
    let rest : (more cfg t).0 ≡ ok made =
      sym (ap (λ (r : Result (AcceleratorDiscoveryConfig × Setter) × F.State). r.0) at) ∙ h in
    let (setter, _, same) =
      bind-eq-ok (new_kernel_controller F os_release) (λ setter. pure (cfg, setter)) t rest in
    let both : ok (cfg, setter) ≡ ok made =
      sym (ap (λ (r : Result (AcceleratorDiscoveryConfig × Setter) × F.State). r.0) same) ∙ rest in
    ground (arith, read, both)

module _ (P : SriovFecDaemon) (H : HasNodeConfigs P.daemon) where
  open P use {daemon, libraries}

  sriov_variables_ok :
      (s : daemon.machine.State) (made : AcceleratorDiscoveryConfig × Setter)
      → (prepare_sriov_fec_daemon P s).0 ≡ ok made
      → ((libraries.getenv "NODENAME" == "") ≡ false)
        × ((libraries.getenv "SRIOV_FEC_NAMESPACE" == "") ≡ false)
  unfolding prepare_sriov_fec_daemon need
  sriov_variables_ok s made h = elim (Bool-cases (libraries.getenv "NODENAME" == "")) [
    | inl e ↦ absurd (ground (arith, e, h))
    | inr e ↦ elim (Bool-cases (libraries.getenv "SRIOV_FEC_NAMESPACE" == "")) [
      | inl f ↦ absurd (ground (arith, e, f, h))
      | inr f ↦ (e, f)
    ]
  ]

  abbrev made_has :
      (made : AcceleratorDiscoveryConfig × Setter) → HasNodeConfigs (node_config_reconciler P made)
  made_has made = record { stored = H.stored; get_found = H.get_found; update_ok = H.update_ok }

  -- Where what the daemon of the accelerators does before it starts its manager ends without an error,
  -- the names of the node and of the namespace are not empty, its supported accelerators are those of
  -- the configuration file as it was read, the API server has the resource of this node in this
  -- namespace, and main goes on with the start of the manager.
  pub prepare_sriov_fec_daemon_ok :
      (s : daemon.machine.State) (made : AcceleratorDiscoveryConfig × Setter)
      → (prepare_sriov_fec_daemon P s).0 ≡ ok made
      → ((libraries.getenv "NODENAME" == "") ≡ false)
        × ((libraries.getenv "SRIOV_FEC_NAMESPACE" == "") ≡ false)
        × (t : daemon.machine.State) × ((load_discovery_config (discovery_file P) config_path t).0
            ≡ ok made.0)
        × (is_some (
              H.stored
                (record {
                  namespace = libraries.getenv "SRIOV_FEC_NAMESPACE";
                  name = libraries.getenv "NODENAME";
                })
                (prepare_sriov_fec_daemon P s).1)
            ≡ true)
        × (sriov_fec_daemon_main P s
            ≡ or_exit libraries.start (λ _. finish) (prepare_sriov_fec_daemon P s).1)
  unfolding prepare_sriov_fec_daemon sriov_fec_daemon_main or_exit
  prepare_sriov_fec_daemon_ok s made h =
      let State : Type 0 = daemon.machine.State in
      let Made : Type 0 = AcceleratorDiscoveryConfig × Setter in
      let setup : Exec State (Unit {0}) =
        need "NODENAME" (libraries.getenv "NODENAME")
        >> need "SRIOV_FEC_NAMESPACE" (libraries.getenv "SRIOV_FEC_NAMESPACE")
        >> libraries.get_config
        >> libraries.new_client
        >> libraries.new_clientset
        >> libraries.new_manager (libraries.getenv "SRIOV_FEC_NAMESPACE") in
      let make : Exec State Made = new_node_config_reconciler (discovery_file P) P.os_release in
      let create : Made → Exec State (Unit {0}) =
        λ m. create_empty_node_config_if_needed (node_config_reconciler P m) in
      let end : Made → Exec State Made = λ m. libraries.setup_with_manager >> create m >> pure m in
      let (m, e1, at1) = bind-eq-ok (setup >> make) end s h in
      let (u, e2, at2) = bind-eq-ok setup (λ _. make) s e1 in
      let t : State = (setup s).1 in
      let v : State = ((setup >> make) s).1 in
      let built : (make t).0 ≡ ok m = sym (ap (λ (r : Result Made × State). r.0) at2) ∙ e1 in
      let ended : (end m v).0 ≡ ok made = sym (ap (λ (r : Result Made × State). r.0) at1) ∙ h in
      let (w, e3, at3) =
        bind-eq-ok (libraries.setup_with_manager >> create m) (λ _. pure m) v ended in
      let (z, e4, at4) = bind-eq-ok libraries.setup_with_manager (λ _. create m) v e3 in
      let x : State = (libraries.setup_with_manager v).1 in
      let created : (create m x).0 ≡ ok tt =
        sym (ap (λ (r : Result (Unit {0}) × State). r.0) at4) ∙ e3 in
      let same : ok m ≡ ok made = sym (ap (λ (r : Result Made × State). r.0) at3) ∙ ended in
      let final : (prepare_sriov_fec_daemon P s).1 ≡ (create m x).1 =
        ap (λ (r : Result Made × State). r.1) at1
        ∙ ap (λ (r : Result Made × State). r.1) at3
        ∙ ap (λ (r : Result (Unit {0}) × State). r.1) at4 in
      let (node_named, namespace_named) = sriov_variables_ok s made h in
      (
        node_named,
        namespace_named,
        t,
        new_node_config_reconciler_ok (discovery_file P) P.os_release t made (built ∙ same),
        ap (λ (y : State). is_some (H.stored key y)) final
            ∙ create_empty_node_config-stored (node_config_reconciler P m) (made_has m) x created,
        ground (arith, h),
      )
    where
      key : Key
      key = record {
        namespace = libraries.getenv "SRIOV_FEC_NAMESPACE";
        name = libraries.getenv "NODENAME";
      }
