-- ===== src/Fec/Reconcile/Reports.antt =====
-- What a worker without an error and a reply with the resync period say of a reconciliation.
use openshift_operator.Base.{
  ◌≡◌, refl, ap, arith, Bool, true, false, Option, none, some, Error, Result, ok, err, Reconciled,
}
use openshift_operator.Api.{condition_true}
use openshift_operator.Api.Sriov.{NodeInventory, SriovFecNodeConfigSpec}
use openshift_operator.Cluster.Sriov.{NodeConfigObject}
use openshift_operator.Drain.{Outcome, returned, still_leading}
use openshift_operator.Drain.Captured.{replied}
use openshift_operator.Fec.Devices.{reboot_node}
use openshift_operator.Fec.Kernel.{is_any_kernel_params_missing, add_missing_kernel_params}
use openshift_operator.Fec.Inventory.{get_sriov_inventory}
use openshift_operator.Fec.Apply.{apply_config}
use openshift_operator.Fec.Reconcile.{
  Daemon, Locals, resync_period, update_condition, update_inventory, restart_device_plugin,
  add_and_reboot, apply_and_restart, worker, conclude, after_run,
}

abbrev pub synced : Reconciled
synced = record { requeue_after = resync_period; error = none }

module _ (D : Daemon) where
  open D use {machine}

  -- Whether the worker applied the configuration, from a state after the check of the kernel parameters,
  -- and restarted the device plugin, as the last that it did.
  unfoldable pub Applies : SriovFecNodeConfigSpec → Locals × machine.State → Type 0
  Applies spec p =
      let v = (is_any_kernel_params_missing machine p.1).1 in
      let w = (apply_config machine D.supported_accelerators spec v).1 in
      ((apply_config machine D.supported_accelerators spec v).0 ≡ ok tt)
      × ((worker D spec p).1.1 ≡ (restart_device_plugin D w).1)

  -- The worker where it asks for the uncordon and has no error to report.
  pub worker-Applies :
      (spec : SriovFecNodeConfigSpec) (p : Locals × machine.State)
      → (worker D spec p).0 ≡ true
      → (worker D spec p).1.0.configuration_err ≡ none
      → Applies spec p
  unfolding Applies worker add_and_reboot apply_and_restart
  worker-Applies spec (l, s) h n = by_check (is_any_kernel_params_missing machine s).0 refl
    where
      v : machine.State
      v = (is_any_kernel_params_missing machine s).1

      apply : Result (Unit {0}) × machine.State
      apply = apply_config machine D.supported_accelerators spec v

      by_restart :
          (q r : Result (Unit {0}))
          → (is_any_kernel_params_missing machine s).0 ≡ ok false
          → apply.0 ≡ q
          → (restart_device_plugin D apply.1).0 ≡ r
          → Applies spec (l, s)
      by_restart (ok u) (ok v) e f g = (f, ground (arith, e, f, g))
      by_restart (ok u) (err x) e f g = absurd (ground (arith, e, f, g, n))
      by_restart (err x) r e f g = absurd (ground (arith, e, f, n))

      by_reboot :
          (q r : Result (Unit {0}))
          → (is_any_kernel_params_missing machine s).0 ≡ ok true
          → (add_missing_kernel_params machine D.set_kernel_args v).0 ≡ q
          → (reboot_node machine (add_missing_kernel_params machine D.set_kernel_args v).1).0 ≡ r
          → Applies spec (l, s)
      by_reboot (ok u) (ok v) e f g = absurd (ground (arith, e, f, g, h))
      by_reboot (ok u) (err x) e f g = absurd (ground (arith, e, f, g, n))
      by_reboot (err x) r e f g = absurd (ground (arith, e, f, n))

      by_check :
          (r : Result Bool) → (is_any_kernel_params_missing machine s).0 ≡ r → Applies spec (l, s)
      by_check (ok true) e = by_reboot _ _ e refl refl
      by_check (ok false) e = by_restart _ _ e refl refl
      by_check (err x) e = absurd (ground (arith, e, n))

  -- The condition Succeeded was written, the last that was done, with the inventory that was read
  -- after the first state.
  unfoldable pub Reports : NodeConfigObject → machine.State → machine.State → Type 0
  Reports nc before after =
      (inv : NodeInventory) × (after
        ≡ update_condition D (record nc { status = record nc.status { inventory = inv } })
            condition_true "Succeeded" "Configured successfully"
            (get_sriov_inventory machine D.supported_accelerators before).1)

  pub same-Reports :
      (nc : NodeConfigObject) (before : machine.State) {a b : machine.State}
      → a ≡ b
      → Reports nc before b
      → Reports nc before a
  same-Reports nc before e h = rw e h

  -- A reply with the resync period is that of a configuration without an error.
  pub conclude-Reports :
      (nc : NodeConfigObject) (o : Option Error) (l : Locals) (s : machine.State)
      → (conclude D nc o l s).0 ≡ replied synced
      → (o ≡ none) × (l.configuration_err ≡ none) × Reports nc s (conclude D nc o l s).1
  unfolding conclude update_inventory Reports
  conclude-Reports nc o l s h =
      by_results o l.configuration_err l.skip_status_update
        (get_sriov_inventory machine D.supported_accelerators s).0 refl refl refl refl
    where
      by_results :
          (p c : Option Error) (b : Bool) (r : Result NodeInventory)
          → o ≡ p
          → l.configuration_err ≡ c
          → l.skip_status_update ≡ b
          → (get_sriov_inventory machine D.supported_accelerators s).0 ≡ r
          → (o ≡ none) × (l.configuration_err ≡ none) × Reports nc s (conclude D nc o l s).1
      by_results p c true r d e f g = absurd (ground (arith, f, h))
      by_results (some x) c false r d e f g = absurd (ground (arith, d, f, h))
      by_results none (some x) false r d e f g = absurd (ground (arith, d, e, f, h))
      by_results none none false (err x) d e f g = absurd (ground (arith, d, e, f, g, h))
      by_results none none false (ok inv) d e f g = (d, e, (inv, ground (arith, d, e, f, g)))

  -- So the drain helper has returned without an error.
  pub after_run-Reports :
      (nc : NodeConfigObject) (r : Outcome × (Locals × machine.State))
      → (after_run D nc r).0 ≡ replied synced
      → (r.0 ≡ returned none)
        × (r.1.0.configuration_err ≡ none)
        × Reports nc r.1.1 (after_run D nc r).1
  unfolding after_run
  after_run-Reports nc (returned o, (l, s)) h =
      let (d, e, reports) = conclude-Reports nc o l s h in (ap returned d, e, reports)
  after_run-Reports nc (still_leading, (l, s)) h = absurd (ground (arith, h))
