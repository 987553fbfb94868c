-- ===== src/N3000/Reconcile/Laws.antt =====
-- How a reconciliation of the resource of a node ends.
use openshift_operator.Base.{
  ◌≡◌, ◌⊎◌, inl, inr, refl, ap, ◌∙◌, arith, Bool, true, false, not, ◌==◌, Option, none, Error,
  Result, ok, err, handle, branch, done, Keeps, List, some,
}
use openshift_operator.N3000.Program.Commands.{Logs, program_fpgas-Keeps}
use openshift_operator.N3000.Flash.DryRun.{flash-Keeps}
use openshift_operator.Api.Fpga.{N3000Fpga, N3000Fortville, N3000NodeSpec}
use openshift_operator.N3000.Reconcile.{
  program_wanted, flash_wanted, Reconciler, flash_condition, verify_spec, nothing_to_do, host,
  fails, worker, after_run, drained, verify_wanted_fpga, verify_wanted_fortville, verify_and_flash,
  start_flash, handle_node, reconcile,
}
use openshift_operator.Api.{Key, find_status_condition}
use openshift_operator.Cluster.Fpga.{N3000Node}
use openshift_operator.Drain.{IsLawful, Outcome, returned, still_leading, run}
use openshift_operator.Drain.Captured.{replied, waiting, lift}
use openshift_operator.Drain.Leading.{run_no_drain}

module _ (R : Reconciler) where
  open R use {node}

  -- A request for the resource of this node, which is there, is new and valid, and has something to do.
  pub record Begins (k : Key) (n : N3000Node) (s t : node.State) : Type 0 where
    pub namespace_lem : (k.namespace == R.namespace) ≡ true
    pub name_lem : (k.name == R.node_name) ≡ true
    pub found : R.get k s ≡ (ok n, t)
    pub valid : verify_spec n.spec ≡ ok tt
    pub wanted : nothing_to_do n.spec ≡ false
    pub fresh : find_status_condition n.status.conditions flash_condition ≡ none

  pub reconcile-verify_and_flash :
      (k : Key) (n : N3000Node) (s t : node.State)
      → Begins k n s t
      → reconcile R k s ≡ verify_and_flash R n t
  unfolding reconcile handle_node start_flash
  reconcile-verify_and_flash k n s t h =
      ground (arith, h.namespace_lem, h.name_lem, h.found, h.valid, h.wanted, h.fresh)

  after_run-ends :
      (n : N3000Node) (o : Outcome × (Option Error × node.State))
      → ((after_run R n o).0 ≡ replied done) ⊎ ((after_run R n o).0 ≡ waiting)
  unfolding after_run
  after_run-ends n (returned e, (f, s)) = inl refl
  after_run-ends n (still_leading, (f, s)) = inr refl

  verified-ends :
      (n : N3000Node) (s : node.State)
      → ((handle (verify_wanted_fortville R n.spec) (λ _. drained R n) (fails R n) s).0
          ≡ replied done)
        ⊎ ((handle (verify_wanted_fortville R n.spec) (λ _. drained R n) (fails R n) s).0 ≡ waiting)
  unfolding drained
  verified-ends n s = by_result (verify_wanted_fortville R n.spec s).0 refl
    where
      t : node.State
      t = (verify_wanted_fortville R n.spec s).1

      by_result :
          (r : Result (Unit {0}))
          → (verify_wanted_fortville R n.spec s).0 ≡ r
          → ((handle (verify_wanted_fortville R n.spec) (λ _. drained R n) (fails R n) s).0
              ≡ replied done)
            ⊎ ((handle (verify_wanted_fortville R n.spec) (λ _. drained R n) (fails R n) s).0
                ≡ waiting)
      by_result (ok u) e =
          rw e (after_run-ends n (run (host R) (worker R n.spec) (not n.spec.drain_skip) (none, t)))
      by_result (err x) e = inl (ground (arith, e))

  -- For a new resource of this node, which is valid and has something to do, no other try is asked
  -- for: whatever fails, the reconciliation replies without an error and without a delay, or it does
  -- not end.
  pub reconcile_not_retried :
      (k : Key) (n : N3000Node) (s t : node.State)
      → Begins k n s t
      → ((reconcile R k s).0 ≡ replied done) ⊎ ((reconcile R k s).0 ≡ waiting)
  unfolding verify_and_flash
  reconcile_not_retried k n s t h =
      rw (reconcile-verify_and_flash k n s t h) (by_result (verify_wanted_fpga R n.spec t).0 refl)
    where
      by_result :
          (r : Result (Unit {0}))
          → (verify_wanted_fpga R n.spec t).0 ≡ r
          → ((verify_and_flash R n t).0 ≡ replied done) ⊎ ((verify_and_flash R n t).0 ≡ waiting)
      by_result (ok u) e = rw e (verified-ends n (verify_wanted_fpga R n.spec t).1)
      by_result (err x) e = inl (ground (arith, e))

  -- For a new resource of this node, which is valid, has something to do and asks to skip the drain:
  -- where the preconditions hold, the elector can be created, and the lease is not lost, the worker is
  -- done, whether it has flashed the devices or failed, and the reconciliation does not end: nothing is
  -- done after the worker, so no condition tells the result.
  pub reconcile_without_drain :
      (L : IsLawful (host R)) (k : Key) (n : N3000Node) (s t u v : node.State)
      → Begins k n s t
      → n.spec.drain_skip ≡ true
      → verify_wanted_fpga R n.spec t ≡ (ok tt, u)
      → verify_wanted_fortville R n.spec u ≡ (ok tt, v)
      → (R.libraries.new_leader_elector v).0 ≡ ok tt
      → L.lease_lost (worker R n.spec (L.acquired (none, (R.libraries.new_leader_elector v).1))).1
        ≡ false
      → reconcile R k s
        ≡ (waiting, (worker R n.spec (L.acquired (none, (R.libraries.new_leader_elector v).1))).1.1)
  unfolding verify_and_flash drained after_run lift
  reconcile_without_drain L k n s t u v h skip fpga fortville created kept =
      reconcile-verify_and_flash k n s t h
      ∙ rw (fpga, handle, branch, fortville) refl
      ∙ ap (λ (b : Bool). after_run R n (run (host R) (worker R n.spec) (not b) (none, v))) skip
      ∙ ap (after_run R n) (run_no_drain (host R) L (worker R n.spec) (none, v) created kept)

module _ (R : Reconciler) (L : Logs R.node) where
  open R use {node}
  open L use {log}

  program_wanted-Keeps :
      (spec : N3000NodeSpec) → spec.dry_run ≡ true → Keeps log (program_wanted R spec)
  unfolding program_wanted
  program_wanted-Keeps spec dry s = by_fpga spec.fpga refl
    where
      by_fpga :
          (o : Option (List N3000Fpga)) → spec.fpga ≡ o → log (program_wanted R spec s).1 ≡ log s
      by_fpga none e = ground (arith, e)
      by_fpga (some fs) e = rw (program_wanted, e) (program_fpgas-Keeps node L spec dry s)

  flash_wanted-Keeps :
      (spec : N3000NodeSpec) → spec.dry_run ≡ true → Keeps log (flash_wanted R spec)
  unfolding flash_wanted
  flash_wanted-Keeps spec dry s = by_fortville spec.fortville refl
    where
      by_fortville :
          (o : Option N3000Fortville) → spec.fortville ≡ o → log (flash_wanted R spec s).1 ≡ log s
      by_fortville none e = ground (arith, e)
      by_fortville (some f) e = rw (flash_wanted, e, dry) (flash-Keeps node L f.macs s)

  -- In a dry run the worker that the reconciliation gives the drain helper runs no command that
  -- changes the node, for the FPGAs or for the network controllers, whether it succeeds or fails.
  pub worker_dry_run :
      (spec : N3000NodeSpec) (flash_err : Option Error) (s : node.State)
      → spec.dry_run ≡ true
      → log (worker R spec (flash_err, s)).1.1 ≡ log s
  unfolding worker
  worker_dry_run spec flash_err s dry = by_result (program_wanted R spec s).0 refl
    where
      t : node.State
      t = (program_wanted R spec s).1

      by_result :
          (r : Result (Unit {0}))
          → (program_wanted R spec s).0 ≡ r
          → log (worker R spec (flash_err, s)).1.1 ≡ log s
      by_result (ok u) e =
          ground (arith, e, program_wanted-Keeps spec dry s, flash_wanted-Keeps spec dry t)
      by_result (err x) e = ground (arith, e, program_wanted-Keeps spec dry s)
