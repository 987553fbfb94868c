-- ===== src/Fec/Reconcile/Succeeds.antt =====
-- What a reconciliation that reports success has done to the node.
mod Tests
use openshift_operator.Base.{
  ℕ, ◌≡◌, refl, sym, ap, ◌∙◌, arith, Bool, true, false, not, String, List, [], ◌∷◌, ◌==◌, Option,
  none, some, All, Error, failure, message, Result, ok, err, Exec, pure, raise, handle, branch,
  Reconciled, Keeps, handle-Keeps, handle_unchanged, if-Keeps, if◌then◌else◌,
}
use openshift_operator.Api.{Key, Condition, ConditionStatus, condition_true}
use openshift_operator.Api.Sriov.{NodeInventory, PhysicalFunctionConfig, SriovFecNodeConfigSpec}
use openshift_operator.Cluster.Sriov.{NodeConfigObject}
use openshift_operator.Drain.{
  IsLawful, Outcome, returned, still_leading, on_started_leading, uncordon, release, run,
}
use openshift_operator.Drain.Captured.{Reply, replied, lift}
use openshift_operator.Drain.Keeping.{LeavesAlone, uncordon-Keeps, release_keeps}
use openshift_operator.Drain.Leading.{IsNode, elected, run_drained}
use openshift_operator.Fec.{Machine}
use openshift_operator.Fec.Devices.{reboot_node}
use openshift_operator.Fec.Kernel.{is_any_kernel_params_missing, add_missing_kernel_params}
use openshift_operator.Fec.Inventory.{get_sriov_inventory}
use openshift_operator.Fec.Inventory.Laws.{ReadsOnly, get_sriov_inventory_keeps}
use openshift_operator.Fec.Apply.{apply_config}
use openshift_operator.Fec.Apply.Facts.{HasSysfs}
use openshift_operator.Fec.Apply.Configured.{IsConfigured, IsKnown}
use openshift_operator.Fec.Apply.Applied.{HaveDistinct, apply_config-IsConfigured}
use openshift_operator.Fec.Reconcile.{
  Pod, Daemon, Locals, host, resync_period, update_status, update_condition, update_inventory,
  delete_pods, restart_device_plugin, add_and_reboot, apply_and_restart, worker, conclude,
  after_run, configure, reconcile,
}
use openshift_operator.Fec.Reconcile.Errors.{locals, Starts, reconcile-configure}
use openshift_operator.Fec.Reconcile.Reports.{
  synced, Applies, worker-Applies, Reports, same-Reports, after_run-Reports,
}

-- The drivers and the amounts of virtual functions of a node.
abbrev pub Bindings : Type 0
Bindings = (String → Option String) × (String → ℕ)

abbrev pub bindings : (M : Machine) → HasSysfs M → M.State → Bindings
bindings M Y s = (Y.driver_of s, λ d. M.vf_configured d s)

-- The calls of the Kubernetes API and the drain leave the drivers and the amounts alone, and the
-- drain the variables of the closure too; what only reads the node leaves all of it alone.
pub record LeavesBindings (D : Daemon) (Y : HasSysfs D.machine) : Type 1 where
  pub drains :
      LeavesAlone
        (Locals × Bindings)
        (host D)
        (λ (p : Locals × D.machine.State). (p.0, bindings D.machine Y p.1))
  pub reads : ReadsOnly D.machine
  pub pods_keep : Keeps (bindings D.machine Y) (D.list_plugin_pods D.namespace)
  pub delete_keeps : (k : Key) → Keeps (bindings D.machine Y) (D.delete_pod k)
  pub status_keeps : (o : NodeConfigObject) → Keeps (bindings D.machine Y) (D.update_status o)

module _ (D : Daemon) where
  open D use {machine}

  module _ (Y : HasSysfs machine) (K : LeavesBindings D Y) where
    abbrev at : machine.State → Bindings
    at = bindings machine Y

    delete_pods-Keeps : (pods : List Pod) → Keeps at (delete_pods D pods)
    unfolding delete_pods
    delete_pods-Keeps [] = λ s. refl
    delete_pods-Keeps (p ∷ ps) =
        if-Keeps at (p.node_name == D.node_name) _ (delete_pods D ps)
          (handle-Keeps at (D.delete_pod p.key) _ _ (K.delete_keeps p.key)
            (λ u. delete_pods-Keeps ps) (λ e s. refl))
          (delete_pods-Keeps ps)

    restart-Keeps : Keeps at (restart_device_plugin D)
    unfolding restart_device_plugin
    restart-Keeps =
        handle-Keeps at (D.list_plugin_pods D.namespace) _ _ K.pods_keep at_pods (λ e s. refl)
      where
        at_pods :
            (pods : List Pod)
            → Keeps at (elim pods as (λ _. Exec machine.State (Unit {0})) [
              | [] ↦ raise (failure "restartDevicePlugin: No pods found")
              | p ∷ ps ↦ delete_pods D (p ∷ ps)
            ])
        at_pods [] = λ s. refl
        at_pods (p ∷ ps) = delete_pods-Keeps (p ∷ ps)

    reads_keep :
        (s : machine.State) → at (get_sriov_inventory machine D.supported_accelerators s).1 ≡ at s
    reads_keep s = ap at (get_sriov_inventory_keeps machine K.reads D.supported_accelerators s)

    update_condition-at :
        (nc : NodeConfigObject) (status : ConditionStatus) (reason msg : String) (s : machine.State)
        → at (update_condition D nc status reason msg s) ≡ at s
    unfolding update_condition update_status
    update_condition-at nc status reason msg s =
        handle_unchanged at
          (λ (r : Result (Unit {0}) × (NodeConfigObject × machine.State)). at r.1.1)
          (get_sriov_inventory machine D.supported_accelerators) _ _ reads_keep
          (λ inv t. K.status_keeps _ t) (λ e t. refl) s

    Reports-keeps : (nc : NodeConfigObject) (s t : machine.State) → Reports D nc s t → at t ≡ at s
    unfolding Reports
    Reports-keeps nc s t (inv, e) =
        ap at e
        ∙ update_condition-at _ condition_true "Succeeded" "Configured successfully" _
        ∙ reads_keep s

    -- What the uncordon and the release of the lease leave.
    released :
        (p : Locals × machine.State)
        → let q = release (host D) (uncordon (host D) p).1 in (q.0 ≡ p.0) × (at q.1 ≡ at p.1)
    released p =
        let view : Locals × machine.State → Locals × Bindings = λ q. (q.0, at q.1) in
        let same =
          release_keeps (host D) view K.drains (uncordon (host D) p).1
          ∙ uncordon-Keeps (host D) view K.drains p in
        (ap (λ (q : Locals × Bindings). q.0) same, ap (λ (q : Locals × Bindings). q.1) same)

    -- The drivers and the amounts decide whether a physical function is configured.
    Fits : Bindings → PhysicalFunctionConfig → Type 0
    Fits (driver_of, amount_of) pf =
        (driver_of pf.pci_address ≡ some pf.pf_driver)
        × (amount_of pf.pci_address ≡ pf.vf_amount)
        × (t : machine.State) × (vs : List String) × ((machine.vf_list pf.pci_address t).0 ≡ ok vs)
        × (machine.vf_configured pf.pci_address t ≡ pf.vf_amount)
        × All (λ v. (Y.parent v ≡ some pf.pci_address) × (driver_of v ≡ some pf.vf_driver)) vs

    same-Fits :
        (pfs : List PhysicalFunctionConfig) (a b : Bindings)
        → a ≡ b
        → All (Fits b) pfs
        → All (Fits a) pfs
    same-Fits pfs a b e h = rw e h

    at-IsConfigured :
        (pfs : List PhysicalFunctionConfig) (s t : machine.State)
        → at t ≡ at s
        → All (IsConfigured machine Y s) pfs
        → All (IsConfigured machine Y t) pfs
    unfolding IsConfigured Fits
    at-IsConfigured pfs s t e h = same-Fits pfs (at t) (at s) e h

    -- A reconciliation of a new resource, with a drain, that replies with the resync period, where the
    -- elector was created and the lease is not lost: the configuration was applied without an error on
    -- the cordoned and drained node, the node is not cordoned any more, and the last that was done was
    -- to write the condition Succeeded. The physical functions, which are known to the node and of
    -- different addresses, are configured also after the device plugin was restarted, the node
    -- uncordoned, the lease released and the condition written, where the calls for these leave the
    -- drivers and the amounts of virtual functions alone.
    pub reconcile-IsConfigured :
        (L : IsLawful (host D)) (N : IsNode (host D)) (k : Key) (nc : NodeConfigObject)
        (s t : machine.State)
        → Starts D k nc s t
        → nc.spec.drain_skip ≡ false
        → (D.libraries.new_leader_elector t).0 ≡ ok tt
        → L.lease_lost
            (on_started_leading (host D) (worker D nc.spec) true (elected (host D) L (locals, t))).1
          ≡ false
        → All (IsKnown machine Y) nc.spec.physical_functions
        → HaveDistinct nc.spec.physical_functions
        → (reconcile D k s).0 ≡ replied synced
        → let ran = run (host D) (worker D nc.spec) true (locals, t) in
          (p : Locals × machine.State) × (N.cordoned p ≡ true)
          × (N.drained p ≡ true)
          × ((apply_config machine D.supported_accelerators nc.spec
                (is_any_kernel_params_missing machine p.1).1).0
              ≡ ok tt)
          × (N.cordoned ran.1 ≡ false)
          × Reports D nc ran.1.1 (reconcile D k s).1
          × All (IsConfigured machine Y (reconcile D k s).1) nc.spec.physical_functions
    unfolding configure lift Applies
    reconcile-IsConfigured L N k nc s t h drains created kept known distinct reply =
        let ran = run (host D) (worker D nc.spec) true (locals, t) in
        let eq : reconcile D k s ≡ after_run D nc ran =
          reconcile-configure D k nc s t h
          ∙ ap (λ (b : Bool). after_run D nc (run (host D) (worker D nc.spec) (not b) (locals, t)))
              drains in
        let left : (reconcile D k s).1 ≡ (after_run D nc ran).1 =
          ap (λ (r : Reply × machine.State). r.1) eq in
        let (d, e, reports) =
          after_run-Reports D nc ran (sym (ap (λ (r : Reply × machine.State). r.0) eq) ∙ reply) in
        let (p, cordons, drains', asked, ends, frees) =
          run_drained (host D) L N (worker D nc.spec) (locals, t) created kept d in
        let (same, stays) = released (worker D nc.spec p).1 in
        let no_error : (worker D nc.spec p).1.0.configuration_err ≡ none =
          sym (ap (λ (l : Locals). l.configuration_err) same)
          ∙ sym (ap (λ (q : Locals × machine.State). q.0.configuration_err) ends)
          ∙ e in
        let (applied, restarted) = worker-Applies D nc.spec p asked no_error in
        let v = (is_any_kernel_params_missing machine p.1).1 in
        let w = (apply_config machine D.supported_accelerators nc.spec v).1 in
        let unchanged : at (reconcile D k s).1 ≡ at w =
          ap at left
          ∙ Reports-keeps nc ran.1.1 (after_run D nc ran).1 reports
          ∙ ap (λ (q : Locals × machine.State). at q.1) ends
          ∙ stays
          ∙ ap at restarted
          ∙ restart-Keeps w in
        (
          p,
          cordons,
          drains',
          applied,
          frees,
          same-Reports D nc ran.1.1 left reports,
          at-IsConfigured nc.spec.physical_functions w (reconcile D k s).1 unchanged (
              apply_config-IsConfigured machine Y D.supported_accelerators nc.spec v known distinct
                applied),
        )
