-- ===== src/Fec/Reconcile/Settled.antt =====
-- The reconciler at a resource whose condition it has written.
use openshift_operator.Base.{
  ◌≡◌, refl, arith, true, List, [], ◌∷◌, ◌==◌, eq_iff, none, ok, err, Result,
}
use openshift_operator.Drain.Captured.{replied}
use openshift_operator.Api.{find_status_condition, Key, Condition}
use openshift_operator.Api.Sriov.{Vf, SriovAccelerator, NodeInventory, PhysicalFunctionConfig}
use openshift_operator.Cluster.Sriov.{NodeConfigObject}
use openshift_operator.Fec.Inventory.{get_sriov_inventory}
use openshift_operator.Fec.Reconcile.{
  Daemon, configuration_condition, resync_period, vf_eq, vfs_eq, accelerator_eq, accelerators_eq,
  inventory_eq, update_status, begin, handle_config, reconcile,
}

vf_eq_refl : (v : Vf) → vf_eq v v ≡ true
unfolding vf_eq
vf_eq_refl v = ground (
  arith,
  eq_iff v.pci_address v.pci_address,
  eq_iff v.driver v.driver,
  eq_iff v.device_id v.device_id,
)

vfs_eq_refl : (vs : List Vf) → vfs_eq vs vs ≡ true
unfolding vfs_eq
vfs_eq_refl [] = refl
vfs_eq_refl (v ∷ vs) = ground (arith, vf_eq_refl v, vfs_eq_refl vs)

accelerator_eq_refl : (a : SriovAccelerator) → accelerator_eq a a ≡ true
unfolding accelerator_eq
accelerator_eq_refl a = ground (
  arith,
  eq_iff a.vendor_id a.vendor_id,
  eq_iff a.device_id a.device_id,
  eq_iff a.pci_address a.pci_address,
  eq_iff a.driver a.driver,
  vfs_eq_refl a.vfs,
)

accelerators_eq_refl : (as' : List SriovAccelerator) → accelerators_eq as' as' ≡ true
unfolding accelerators_eq
accelerators_eq_refl [] = refl
accelerators_eq_refl (a ∷ as') = ground (arith, accelerator_eq_refl a, accelerators_eq_refl as')

inventory_eq_refl :
    (a : NodeInventory) (acc : SriovAccelerator) (accs : List SriovAccelerator)
    → a.sriov_accelerators ≡ acc ∷ accs
    → inventory_eq a a ≡ true
unfolding inventory_eq
inventory_eq_refl a acc accs h = rw h (accelerators_eq_refl (acc ∷ accs))

module _ (D : Daemon) where
  open D use {machine}

  written :
      (nc nc' : NodeConfigObject) (c : Condition) (r s : machine.State)
      → update_status D nc c r ≡ (ok tt, (nc', s))
      → (nc'.status.conditions ≡ c ∷ [])
        × (nc'.spec.physical_functions ≡ nc.spec.physical_functions)
        × (nc'.generation ≡ nc.generation)
  unfolding update_status
  written nc nc' c r s hu =
      by_inventory (get_sriov_inventory machine D.supported_accelerators r).0 refl
    where
      by_inventory :
          (i : Result NodeInventory)
          → (get_sriov_inventory machine D.supported_accelerators r).0 ≡ i
          → (nc'.status.conditions ≡ c ∷ [])
            × (nc'.spec.physical_functions ≡ nc.spec.physical_functions)
            × (nc'.generation ≡ nc.generation)
      by_inventory (ok inv) e = ground (arith, e, hu)
      by_inventory (err x) e = absurd (ground (arith, e, hu))

  -- Once a condition of the resource at its generation is written without an error, whatever the
  -- condition says, a request that finds the resource as it was written, with something to
  -- configure, on a node whose inventory is as it was recorded and has an accelerator, is replied to
  -- with the resync period and changes nothing: it does what the reads do. So a configuration that
  -- has failed is not tried again either.
  pub reconcile-update_status :
      (k : Key) (nc nc' : NodeConfigObject) (c : Condition) (r s t u : machine.State)
      (first : PhysicalFunctionConfig) (others : List PhysicalFunctionConfig)
      (acc : SriovAccelerator) (accs : List SriovAccelerator)
      → (k.namespace == D.namespace) ≡ true
      → (k.name == D.node_name) ≡ true
      → c.type ≡ configuration_condition
      → c.observed_generation ≡ nc.generation
      → nc.spec.physical_functions ≡ first ∷ others
      → update_status D nc c r ≡ (ok tt, (nc', s))
      → D.get k s ≡ (ok nc', t)
      → get_sriov_inventory machine D.supported_accelerators t ≡ (ok nc'.status.inventory, u)
      → nc'.status.inventory.sriov_accelerators ≡ acc ∷ accs
      → reconcile D k s ≡ (replied (record { requeue_after = resync_period; error = none }), u)
  unfolding reconcile handle_config begin find_status_condition
  reconcile-update_status k nc nc' c r s t u first others acc accs hn hm hc hg hp hu hf hi some' =
      let (cs, ps, g) = written nc nc' c r s hu in
      ground (
        arith,
        cs,
        ps,
        g,
        hn,
        hm,
        hc,
        hg,
        hp,
        hf,
        hi,
        inventory_eq_refl nc'.status.inventory acc accs some',
        eq_iff c.type configuration_condition,
      )
