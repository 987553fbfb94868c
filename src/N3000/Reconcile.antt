-- ===== src/N3000/Reconcile.antt =====
-- N3000/pkg/daemon/daemon.go: `N3000NodeReconciler`, the reconciler of the resource of this node, with
-- the filter of its events. The Kubernetes API is a parameter; an object that the client has updated
-- is taken to be as it was sent. The drain helper is that of `Drain`, over the variable that the worker
-- closure captures and the state of the node.
pub mod Laws
pub mod Preconditions
pub mod DryRun
pub mod Working
pub mod Succeeds
mod Tests
use openshift_operator.Base.{
  Bool, true, false, not, String, ◌<>◌, List, [], ◌∷◌, ◌==◌, eqb, Option, none, some, Error,
  failure, message, is_not_found, Result, ok, err, Exec, pure, raise, handle, ◌>>=◌, if◌then◌else◌,
  Reconciled, done, failed,
}
use openshift_operator.Api.{
  Key, find_status_condition, Condition, ConditionStatus, condition_true, condition_false,
  condition_unknown,
}
use openshift_operator.Api.Fpga.{N3000Fpga, N3000Fortville, N3000NodeSpec, N3000NodeStatus}
use openshift_operator.Cluster.Fpga.{N3000Node}
use openshift_operator.Drain.{Host, Outcome, returned, still_leading, run}
use openshift_operator.Drain.Captured.{Reply, replied, waiting, Libraries, host_over}
use openshift_operator.N3000.{Node}
use openshift_operator.N3000.Bmc.{get_fpga_inventory}
use openshift_operator.N3000.Nics.{get_inventory}
use openshift_operator.N3000.Program.{elements, program_fpgas}
use openshift_operator.N3000.Flash.{flash}
use openshift_operator.N3000.Program
use openshift_operator.N3000.Flash

pub record Reconciler : Type 1 where
  pub node : Node
  pub namespace : String
  pub node_name : String
  -- Get, Create and Status().Update of the node's resource
  pub get : Key → Exec node.State N3000Node
  pub create : N3000Node → Exec node.State (Unit {0})
  pub status_update : N3000Node → Exec node.State (Unit {0})
  -- What the drain helper uses
  pub libraries : Libraries node.State

abbrev pub flash_condition : String
flash_condition = "Flashed"

-- The filter of `SetupWithManager` for new resources and for changed ones.
unfoldable pub create_func : N3000Node → Bool
create_func n = elim (find_status_condition n.status.conditions flash_condition) [
  | none ↦ true
  | some c ↦ if eqb c.observed_generation n.generation then false else true
]

unfoldable pub update_func : N3000Node → N3000Node → Bool
update_func old new = if eqb old.generation new.generation then false else true

-- The loop of `verifySpec`.
unfoldable pub verify_urls : List N3000Fpga → Result (Unit {0})
verify_urls [] = ok tt
verify_urls (f ∷ fs) =
    if f.user_image_url == ""
    then err (failure ("Missing UserImageURL for PCI: " <> f.pci_addr))
    else verify_urls fs

-- What `verifySpec` asks of the controllers.
unfoldable pub verify_firmware : Option N3000Fortville → Result (Unit {0})
verify_firmware none = ok tt
verify_firmware (some f) = elim f.macs [
  | [] ↦ ok tt
  | m ∷ ms ↦ if f.firmware_url == "" then err (failure "Missing Fortville FirmwareURL") else ok tt
]

unfoldable pub verify_spec : N3000NodeSpec → Result (Unit {0})
verify_spec spec = elim (verify_urls (elements spec.fpga)) [
  | err e ↦ err e
  | ok u ↦ verify_firmware spec.fortville
]

-- Whether `Spec.FPGA` and `Spec.Fortville` are nil.
unfoldable pub nothing_to_do : N3000NodeSpec → Bool
nothing_to_do spec = elim spec.fpga [
  | some fs ↦ false
  | none ↦ elim spec.fortville [ some f ↦ false | none ↦ true ]
]

module _ (R : Reconciler) where
  open R use {node, libraries}

  -- The variable that the closure captures is `flashErr`.
  abbrev pub host : Host
  host = host_over (Option Error) node.State libraries

  unfoldable pub create_empty_n3000_node_if_needed : Exec node.State (Unit {0})
  create_empty_n3000_node_if_needed =
      let key : Key = record { namespace = R.namespace; name = R.node_name } in
      let empty : N3000Node = record {
        key = key;
        generation = 0;
        spec = record { fpga = none; fortville = none; dry_run = false; drain_skip = false };
        status = record { conditions = []; fpga = []; fortville = [] };
      } in
      handle (R.get key) (λ _. pure tt) (λ e. if is_not_found e then R.create empty else raise e)

  unfoldable pub get_node_status : Exec node.State N3000NodeStatus
  get_node_status = get_inventory node >>= λ fortville. get_fpga_inventory node >>= λ fpga.
      pure (record { conditions = []; fpga = fpga; fortville = fortville })

  -- `updateStatus` with one condition, which is all that a new status has; the resource at hand has
  -- the new status also where it could not be written.
  unfoldable pub update_status :
      N3000Node → Condition → node.State → Result (Unit {0}) × (N3000Node × node.State)
  update_status n c s =
      handle get_node_status
        (λ status s1.
          let n' : N3000Node = record n { status = record status { conditions = c ∷ [] } } in
          let (r, s2) = R.status_update n' s1 in (r, (n', s2)))
        (λ e s1. (err e, (n, s1))) s

  -- `updateFlashCondition`, whose error is only logged.
  unfoldable pub update_flash_condition :
      N3000Node → ConditionStatus → String → String → node.State → node.State
  update_flash_condition n status reason msg s =
      let c : Condition = record {
        type = flash_condition;
        status = status;
        reason = reason;
        message = msg;
        observed_generation = n.generation;
      } in
      (update_status n c s).1.1

  -- The reply after the condition Failed.
  abbrev pub fails : N3000Node → Error → node.State → Reply × node.State
  fails n e s = (replied done, update_flash_condition n condition_false "Failed" (message e) s)

  unfoldable pub program_wanted : N3000NodeSpec → Exec node.State (Unit {0})
  program_wanted spec = elim spec.fpga [ none ↦ pure tt | some fs ↦ program_fpgas node spec ]

  unfoldable pub flash_wanted : N3000NodeSpec → Exec node.State (Unit {0})
  flash_wanted spec = elim spec.fortville [
    | none ↦ pure tt
    | some f ↦ flash node spec.dry_run f.macs
  ]

  -- The closure that `Reconcile` gives the drain helper.
  unfoldable pub worker :
      N3000NodeSpec → Option Error × node.State → Bool × (Option Error × node.State)
  worker spec (flash_err, s) =
      handle (program_wanted spec)
        (λ _.
          handle (flash_wanted spec) (λ _ s'. (true, (flash_err, s')))
            (λ e s'. (true, (some e, s'))))
        (λ e s'. (true, (some e, s'))) s

  -- What `Reconcile` does after the drain helper has returned.
  unfoldable pub conclude : N3000Node → Option Error → Option Error → node.State → node.State
  conclude n (some e) flash_err = update_flash_condition n condition_unknown "Unknown" (message e)
  conclude n none (some e) = update_flash_condition n condition_false "Failed" (message e)
  conclude n none none = update_flash_condition n condition_true "Succeeded" "Flashed successfully"

  unfoldable pub after_run : N3000Node → Outcome × (Option Error × node.State) → Reply × node.State
  after_run n (returned dh_err, (flash_err, s)) = (replied done, conclude n dh_err flash_err s)
  after_run n (still_leading, (flash_err, s)) = (waiting, s)

  unfoldable pub drained : N3000Node → node.State → Reply × node.State
  drained n s = after_run n (run host (worker n.spec) (not n.spec.drain_skip) (none, s))

  -- The preconditions of both kinds of devices.
  unfoldable pub verify_wanted_fpga : N3000NodeSpec → Exec node.State (Unit {0})
  verify_wanted_fpga spec = elim spec.fpga [
    | none ↦ pure tt
    | some fs ↦ Program.verify_preconditions node spec
  ]

  unfoldable pub verify_wanted_fortville : N3000NodeSpec → Exec node.State (Unit {0})
  verify_wanted_fortville spec = elim spec.fortville [
    | none ↦ pure tt
    | some f ↦ Flash.verify_preconditions node f
  ]

  unfoldable pub verify_and_flash : N3000Node → node.State → Reply × node.State
  verify_and_flash n =
      handle (verify_wanted_fpga n.spec)
        (λ _. handle (verify_wanted_fortville n.spec) (λ _. drained n) (fails n)) (fails n)

  -- What `Reconcile` does with the condition that the resource had.
  unfoldable pub start_flash : N3000Node → Option Condition → node.State → Reply × node.State
  start_flash n none s = verify_and_flash n s
  start_flash n (some current) s =
      let started : Condition = record current {
        status = condition_false;
        reason = "InProgress";
        message = "Flash started";
      } in
      let (r, (n', s')) = update_status n started s in
      elim r [ ok u ↦ verify_and_flash n' s' | err e ↦ (replied (failed e), s') ]

  unfoldable pub handle_node : N3000Node → node.State → Reply × node.State
  handle_node n s = elim (verify_spec n.spec) [
    | err e ↦ fails n e s
    | ok u ↦
        if nothing_to_do n.spec
        then (
          replied done,
          update_flash_condition n condition_false "NotRequested" "Inventory up to date" s,
        )
        else start_flash n (find_status_condition n.status.conditions flash_condition) s
  ]

  abbrev replying : Reconciled → node.State → Reply × node.State
  replying r s = (replied r, s)

  unfoldable pub reconcile : Key → node.State → Reply × node.State
  reconcile k s =
      if not (k.namespace == R.namespace)
      then (replied done, s)
      else if not (k.name == R.node_name)
      then (replied done, s)
      else handle (R.get k) handle_node
          (λ e.
            if is_not_found e
            then handle create_empty_n3000_node_if_needed (λ _. replying done)
                (λ x. replying (failed x))
            else replying (failed e))
          s
