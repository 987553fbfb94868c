-- ===== src/Fec/Reconcile.antt =====
-- sriov-fec/pkg/daemon/daemon.go: `NodeConfigReconciler`, the reconciler of the configuration of this
-- node. The Kubernetes API is a parameter; an object that the client has updated is taken to be as it
-- was sent. The drain helper is that of `Drain`, over the variables that the worker closure captures
-- and the state of the node.
pub mod Errors
pub mod Settled
pub mod Reports
pub mod Succeeds
mod Tests
use openshift_operator.Base.{
  ℕ, Bool, true, false, ◌&&◌, not, String, ◌<>◌, List, [], ◌∷◌, ◌==◌, eqb, Option, none, some,
  Error, failure, message, is_not_found, Result, ok, err, Exec, pure, raise, handle, ◌>>=◌, ◌>>◌,
  if◌then◌else◌, Reconciled, done, failed,
}
use openshift_operator.Api.{
  find_status_condition, Key, Condition, ConditionStatus, condition_true, condition_false,
}
use openshift_operator.Api.Sriov.{Vf, SriovAccelerator, NodeInventory, SriovFecNodeConfigSpec}
use openshift_operator.Cluster.Sriov.{NodeConfigObject}
use openshift_operator.Drain.{Host, Outcome, returned, still_leading, run}
use openshift_operator.Drain.Captured.{Reply, replied, waiting, Libraries, host_over}
use openshift_operator.Fec.{Machine}
use openshift_operator.Fec.Devices.{reboot_node}
use openshift_operator.Fec.Kernel.{Setter, is_any_kernel_params_missing, add_missing_kernel_params}
use openshift_operator.Fec.Inventory.{AcceleratorDiscoveryConfig, get_sriov_inventory}
use openshift_operator.Fec.Apply.{apply_config}

pub record Pod : Type 0 where
  pub key : Key
  pub node_name : String

-- The variables `configurationErr` and `skipStatusUpdate` of `Reconcile`.
pub record Locals : Type 0 where
  pub configuration_err : Option Error
  pub skip_status_update : Bool

pub record Daemon : Type 1 where
  pub machine : Machine
  pub namespace : String
  pub node_name : String
  pub supported_accelerators : AcceleratorDiscoveryConfig
  pub set_kernel_args : Setter
  -- Get, Create and Status().Update of the node's resource
  pub get : Key → Exec machine.State NodeConfigObject
  pub create : NodeConfigObject → Exec machine.State (Unit {0})
  pub update_status : NodeConfigObject → Exec machine.State (Unit {0})
  -- List of the pods of the device plugin in a namespace, and Delete of a pod
  pub list_plugin_pods : String → Exec machine.State (List Pod)
  pub delete_pod : Key → Exec machine.State (Unit {0})
  -- What the drain helper uses
  pub libraries : Libraries machine.State

module _ (D : Daemon) where
  open D use {machine, libraries}

  abbrev pub host : Host
  host = host_over Locals machine.State libraries

-- `reflect.DeepEqual` of the inventory that was read on the node and the one that the API server gave.
-- An empty one is a slice of no elements on the node, and nil from the API server, since the field is
-- left out of its text, and these two are not equal. The slices of virtual functions are never nil.
vf_eq : Vf → Vf → Bool
vf_eq a b = a.pci_address == b.pci_address && (a.driver == b.driver && a.device_id == b.device_id)

vfs_eq : List Vf → List Vf → Bool
vfs_eq [] [] = true
vfs_eq (a ∷ as') (b ∷ bs) = vf_eq a b && vfs_eq as' bs
vfs_eq as' bs = false

accelerator_eq : SriovAccelerator → SriovAccelerator → Bool
accelerator_eq a b =
    (a.vendor_id == b.vendor_id && (a.device_id == b.device_id && a.pci_address == b.pci_address))
    && (a.driver == b.driver && (eqb a.max_vfs b.max_vfs && vfs_eq a.vfs b.vfs))

accelerators_eq : List SriovAccelerator → List SriovAccelerator → Bool
accelerators_eq [] [] = true
accelerators_eq (a ∷ as') (b ∷ bs) = accelerator_eq a b && accelerators_eq as' bs
accelerators_eq as' bs = false

unfoldable pub inventory_eq : NodeInventory → NodeInventory → Bool
unfolding accelerators_eq accelerator_eq vfs_eq vf_eq
inventory_eq a b = elim a.sriov_accelerators [
  | [] ↦ false
  | acc ∷ accs ↦ accelerators_eq (acc ∷ accs) b.sriov_accelerators
]

abbrev pub configuration_condition : String
configuration_condition = "Configured"

-- In seconds
abbrev pub resync_period : ℕ
resync_period = 60

module _ (D : Daemon) where
  open D use {machine}

  -- `updateStatus` with one condition, which is all that a new status has; the resource at hand has
  -- the new status also where it could not be written.
  unfoldable pub update_status :
      NodeConfigObject
      → Condition
      → machine.State
      → Result (Unit {0}) × (NodeConfigObject × machine.State)
  update_status nc c s =
      handle (get_sriov_inventory machine D.supported_accelerators)
        (λ inv s1.
          let nc' = record nc { status = record { conditions = c ∷ []; inventory = inv } } in
          let (r, s2) = D.update_status nc' s1 in (r, (nc', s2)))
        (λ e s1. (err e, (nc, s1))) s

  unfoldable pub update_condition :
      NodeConfigObject → ConditionStatus → String → String → machine.State → machine.State
  update_condition nc status reason msg s =
      let c : Condition = record {
        type = configuration_condition;
        status = status;
        reason = reason;
        message = msg;
        observed_generation = nc.generation;
      } in
      (update_status nc c s).1.1

  -- The loop of `restartDevicePlugin`.
  unfoldable pub delete_pods : List Pod → Exec machine.State (Unit {0})
  delete_pods [] = pure tt
  delete_pods (p ∷ ps) =
      let rest = delete_pods ps in
      if p.node_name == D.node_name
      then handle (D.delete_pod p.key) (λ _. rest)
          (λ e.
            raise (failure ("failed to delete sriov-device-plugin-daemonset pod: " <> message e)))
      else rest

  unfoldable pub restart_device_plugin : Exec machine.State (Unit {0})
  restart_device_plugin =
      handle (D.list_plugin_pods D.namespace)
        (λ pods. elim pods [
          | [] ↦ raise (failure "restartDevicePlugin: No pods found")
          | p ∷ ps ↦ delete_pods (p ∷ ps)
        ])
        (λ e. raise (failure ("failed to get pods: " <> message e)))

  unfoldable pub create_empty_node_config_if_needed : Exec machine.State (Unit {0})
  create_empty_node_config_if_needed =
      let key : Key = record { namespace = D.namespace; name = D.node_name } in
      let empty : NodeConfigObject = record {
        key = key;
        generation = 0;
        spec = record { physical_functions = []; drain_skip = false };
        status = record { conditions = []; inventory = record { sriov_accelerators = [] } };
      } in
      handle (D.get key) (λ _. pure tt)
        (λ e. if is_not_found e then (D.create empty >> D.update_status empty) else raise e)

  -- The worker's returns with `configurationErr` set.
  abbrev gives_up : Error → Locals → machine.State → Bool × (Locals × machine.State)
  gives_up e l s = (true, (record l { configuration_err = some e }, s))

  -- The worker where kernel parameters are missing.
  unfoldable pub add_and_reboot : Locals → machine.State → Bool × (Locals × machine.State)
  add_and_reboot l =
      handle (add_missing_kernel_params machine D.set_kernel_args)
        (λ _.
          handle (reboot_node machine) (λ _ s. (false, (record l { skip_status_update = true }, s)))
            (λ e. gives_up e l))
        (λ e. gives_up e l)

  -- The worker where none is missing.
  unfoldable pub apply_and_restart :
      SriovFecNodeConfigSpec → Locals → machine.State → Bool × (Locals × machine.State)
  apply_and_restart spec l =
      handle (apply_config machine D.supported_accelerators spec)
        (λ _.
          handle restart_device_plugin (λ _ s. (true, (record l { configuration_err = none }, s)))
            (λ e. gives_up e l))
        (λ e. gives_up e l)

  -- The closure that `Reconcile` gives the drain helper.
  unfoldable pub worker :
      SriovFecNodeConfigSpec → Locals × machine.State → Bool × (Locals × machine.State)
  worker spec (l, s) =
      handle (is_any_kernel_params_missing machine)
        (λ missing. if missing then add_and_reboot l else apply_and_restart spec l)
        (λ e. gives_up e l) s

  -- `updateInventory`
  unfoldable pub update_inventory : NodeConfigObject → Exec machine.State NodeConfigObject
  update_inventory nc = get_sriov_inventory machine D.supported_accelerators >>= λ inv.
      pure (record nc { status = record nc.status { inventory = inv } })

  -- What `Reconcile` does after the drain helper. The variable `err` that it returns with an error of
  -- the drain helper or of the configuration is the one of the inventory before, which is nil here.
  unfoldable pub conclude :
      NodeConfigObject → Option Error → Locals → machine.State → Reply × machine.State
  conclude nc dh_err l s = if l.skip_status_update then (replied done, s) else elim dh_err [
    | some e ↦ (replied done, update_condition nc condition_false "Unknown" (message e) s)
    | none ↦ elim l.configuration_err [
      | some e ↦ (replied done, update_condition nc condition_false "Failed" (message e) s)
      | none ↦
          handle (update_inventory nc)
            (λ nc' s1. (
              replied (record { requeue_after = resync_period; error = none }),
              update_condition nc' condition_true "Succeeded" "Configured successfully" s1,
            ))
            (λ e s1.
              (replied (failed e), update_condition nc condition_false "Failed" (message e) s1))
            s
    ]
  ]

  unfoldable pub after_run :
      NodeConfigObject → Outcome × (Locals × machine.State) → Reply × machine.State
  after_run nc (returned dh_err, (l, s)) = conclude nc dh_err l s
  after_run nc (still_leading, (l, s)) = (waiting, s)

  unfoldable pub configure : NodeConfigObject → machine.State → Reply × machine.State
  configure nc s = after_run nc (
      run (host D) (worker nc.spec) (not nc.spec.drain_skip)
        (record { configuration_err = none; skip_status_update = false }, s))

  abbrev replying : Reconciled → machine.State → Reply × machine.State
  replying r s = (replied r, s)

  -- What `Reconcile` does with the condition that the resource had.
  unfoldable pub begin :
      NodeConfigObject → NodeInventory → Option Condition → machine.State → Reply × machine.State
  begin nc inv none s = configure nc s
  begin nc inv (some current) s =
      if inventory_eq inv nc.status.inventory && eqb current.observed_generation nc.generation
      then (replied (record { requeue_after = resync_period; error = none }), s)
      else (let started = record current {
        status = condition_false;
        reason = "InProgress";
        message = "Configuration started";
      } in
          let (r, (nc', s')) = update_status nc started s in
          elim r [ ok u ↦ configure nc' s' | err e ↦ (replied (failed e), s') ])

  unfoldable pub handle_config : NodeConfigObject → machine.State → Reply × machine.State
  handle_config nc s = elim nc.spec.physical_functions [
    | [] ↦
        (replied done, update_condition nc condition_false "NotRequested" "Inventory up to date" s)
    | pf ∷ pfs ↦
        handle (get_sriov_inventory machine D.supported_accelerators)
          (λ inv. begin nc inv (find_status_condition nc.status.conditions configuration_condition))
          (λ e s1.
            (replied (failed e), update_condition nc condition_false "Failed" (message e) s1))
          s
  ]

  unfoldable pub reconcile : Key → machine.State → Reply × machine.State
  reconcile k s =
      if not (k.namespace == D.namespace)
      then (replied done, s)
      else if not (k.name == D.node_name)
      then (replied done, s)
      else handle (D.get k) handle_config
          (λ e.
            if is_not_found e
            then handle create_empty_node_config_if_needed (λ _. replying done)
                (λ x. replying (failed x))
            else replying (failed e))
          s
