-- ===== src/Fec/Reconcile/Errors.antt =====
-- What becomes of a configuration that is applied without a drain.
use openshift_operator.Base.{◌≡◌, ◌∙◌, ap, arith, Bool, true, false, not, List, ◌∷◌, ◌==◌, none, ok}
use openshift_operator.Api.{find_status_condition, Key}
use openshift_operator.Api.Sriov.{PhysicalFunctionConfig, NodeInventory}
use openshift_operator.Cluster.Sriov.{NodeConfigObject}
use openshift_operator.Drain.{IsLawful, run}
use openshift_operator.Drain.Captured.{waiting, lift}
use openshift_operator.Drain.Leading.{run_no_drain}
use openshift_operator.Fec.Inventory.{get_sriov_inventory}
use openshift_operator.Fec.Reconcile.{
  Daemon, Locals, host, configuration_condition, worker, after_run, configure, begin, handle_config,
  reconcile,
}

abbrev pub locals : Locals
locals = record { configuration_err = none; skip_status_update = false }

module _ (D : Daemon) where
  open D use {machine}

  -- A request for the resource of this node, which is there, is new, and has something to configure
  -- on a node whose inventory can be read.
  pub record Starts (k : Key) (nc : NodeConfigObject) (s t : machine.State) : Type 0 where
    pub namespace_lem : (k.namespace == D.namespace) ≡ true
    pub name_lem : (k.name == D.node_name) ≡ true
    pub between : machine.State
    pub found : D.get k s ≡ (ok nc, between)
    pub first : PhysicalFunctionConfig
    pub others : List PhysicalFunctionConfig
    pub wanted : nc.spec.physical_functions ≡ first ∷ others
    pub inventory : NodeInventory
    pub read : get_sriov_inventory machine D.supported_accelerators between ≡ (ok inventory, t)
    pub fresh : find_status_condition nc.status.conditions configuration_condition ≡ none

  pub reconcile-configure :
      (k : Key) (nc : NodeConfigObject) (s t : machine.State)
      → Starts k nc s t
      → reconcile D k s ≡ configure D nc t
  unfolding reconcile handle_config begin
  reconcile-configure k nc s t h =
      ground (arith, h.namespace_lem, h.name_lem, h.found, h.wanted, h.read, h.fresh)

  -- For a new resource of this node, which has something to configure and asks to skip the drain, on a
  -- node whose inventory can be read: where the elector can be created, and the lease is not lost, the
  -- worker is done, whether it has applied the configuration or failed, and the reconciliation does not
  -- end: nothing is done after the worker, so no condition tells the result.
  pub reconcile_skips_drain :
      (L : IsLawful (host D)) (k : Key) (nc : NodeConfigObject) (s t : machine.State)
      → Starts k nc s t
      → nc.spec.drain_skip ≡ true
      → ((D.libraries.new_leader_elector t).0 ≡ ok tt)
      → L.lease_lost
          (worker D nc.spec (L.acquired (locals, (D.libraries.new_leader_elector t).1))).1
        ≡ false
      → reconcile D k s ≡ (
        waiting,
        (worker D nc.spec (L.acquired (locals, (D.libraries.new_leader_elector t).1))).1.1,
      )
  unfolding configure after_run lift
  reconcile_skips_drain L k nc s t h skip created kept =
      reconcile-configure k nc s t h
      ∙ ap (λ (b : Bool). after_run D nc (run (host D) (worker D nc.spec) (not b) (locals, t))) skip
      ∙ ap (after_run D nc) (run_no_drain (host D) L (worker D nc.spec) (locals, t) created kept)
