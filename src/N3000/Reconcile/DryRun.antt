-- ===== src/N3000/Reconcile/DryRun.antt =====
-- A whole reconciliation in a dry run, and the log of the commands that update or restart a card.
use openshift_operator.Base.{
  ◌≡◌, refl, ◌∙◌, arith, true, not, ◌==◌, String, List, Option, none, some, Error, is_not_found,
  Result, ok, err, raise, handle, branch, Keeps, handle-Keeps, handle_unchanged, bind-Keeps,
  if-Keeps, Bool-cases, inl, inr, if◌then◌else◌, done, failed,
}
use openshift_operator.Api.{Key, Condition, ConditionStatus, condition_false, find_status_condition}
use openshift_operator.Api.Fpga.{N3000Fpga, N3000Fortville, N3000NodeSpec, N3000NodeStatus}
use openshift_operator.Cluster.Fpga.{N3000Node}
use openshift_operator.Drain.{Outcome, returned, still_leading, run}
use openshift_operator.Drain.Captured.{Reply, replied}
use openshift_operator.Drain.Keeping.{LeavesAlone, run_keeps}
use openshift_operator.N3000.Bmc.{get_fpga_inventory}
use openshift_operator.N3000.Images.Keeping.{FilesKeep}
use openshift_operator.N3000.Nics.{get_inventory}
use openshift_operator.N3000.Program.Commands.{Command, Logs}
use openshift_operator.N3000.Flash.DryRun.{get_inventory-Keeps}
use openshift_operator.N3000.Reconcile.{
  Reconciler, flash_condition, host, create_empty_n3000_node_if_needed, get_node_status,
  update_status, update_flash_condition, fails, worker, conclude, after_run, drained, verify_spec,
  nothing_to_do, verify_wanted_fpga, verify_wanted_fortville, verify_and_flash, start_flash,
  handle_node, reconcile,
}
use openshift_operator.N3000.Reconcile.Preconditions.{
  get_fpga_inventory-Keeps, verify_fpga-Keeps, verify_fortville-Keeps,
}
use openshift_operator.N3000.Reconcile.Laws.{worker_dry_run}

-- The API server and the libraries of the drain helper change nothing on the node.
pub record ApiKeeps (R : Reconciler) (L : Logs R.node) : Type 1 where
  pub get_keeps : (k : Key) → Keeps L.log (R.get k)
  pub create_keeps : (n : N3000Node) → Keeps L.log (R.create n)
  pub status_update_keeps : (n : N3000Node) → Keeps L.log (R.status_update n)
  pub libraries_keep :
      LeavesAlone (List Command) (host R) (λ (p : Option Error × R.node.State). L.log p.1)

module _ (R : Reconciler) (L : Logs R.node) (F : FilesKeep R.node L.log) (A : ApiKeeps R L) where
  open R use {node}
  open L use {log}

  -- The log after a reply
  abbrev log_after : Reply × node.State → List Command
  log_after r = log r.1

  pub verify_wanted_fpga-Keeps : (spec : N3000NodeSpec) → Keeps log (verify_wanted_fpga R spec)
  unfolding verify_wanted_fpga
  verify_wanted_fpga-Keeps spec s = by_fpga spec.fpga refl
    where
      by_fpga :
          (o : Option (List N3000Fpga))
          → spec.fpga ≡ o
          → log (verify_wanted_fpga R spec s).1 ≡ log s
      by_fpga none e = ground (arith, e)
      by_fpga (some fs) e = rw (verify_wanted_fpga, e) (verify_fpga-Keeps node L F spec s)

  pub verify_wanted_fortville-Keeps :
      (spec : N3000NodeSpec) → Keeps log (verify_wanted_fortville R spec)
  unfolding verify_wanted_fortville
  verify_wanted_fortville-Keeps spec s = by_fortville spec.fortville refl
    where
      by_fortville :
          (o : Option N3000Fortville)
          → spec.fortville ≡ o
          → log (verify_wanted_fortville R spec s).1 ≡ log s
      by_fortville none e = ground (arith, e)
      by_fortville (some f) e =
          rw (verify_wanted_fortville, e) (verify_fortville-Keeps node L F f s)

  get_node_status-Keeps : Keeps log (get_node_status R)
  unfolding get_node_status
  get_node_status-Keeps =
      bind-Keeps log (get_inventory node) _ (get_inventory-Keeps node L) (λ fortville.
        bind-Keeps log (get_fpga_inventory node) _ (get_fpga_inventory-Keeps node L F)
          (λ fpga s. refl))

  update_status_keeps :
      (n : N3000Node) (c : Condition) (s : node.State) → log (update_status R n c s).1.1 ≡ log s
  unfolding update_status
  update_status_keeps n c =
      handle_unchanged log (λ (r : Result (Unit {0}) × (N3000Node × node.State)). log r.1.1)
        (get_node_status R) _ _ get_node_status-Keeps (λ status t. A.status_update_keeps _ t)
        (λ e t. refl)

  pub update_flash_condition_keeps :
      (n : N3000Node) (c : ConditionStatus) (reason msg : String) (s : node.State)
      → log (update_flash_condition R n c reason msg s) ≡ log s
  unfolding update_flash_condition
  update_flash_condition_keeps n c reason msg s = update_status_keeps n _ s

  conclude_keeps :
      (n : N3000Node) (a b : Option Error) (s : node.State) → log (conclude R n a b s) ≡ log s
  unfolding conclude
  conclude_keeps n (some e) b s = update_flash_condition_keeps n _ _ _ s
  conclude_keeps n none (some e) s = update_flash_condition_keeps n _ _ _ s
  conclude_keeps n none none s = update_flash_condition_keeps n _ _ _ s

  after_run_keeps :
      (n : N3000Node) (o : Outcome × (Option Error × node.State))
      → log_after (after_run R n o) ≡ log o.1.1
  unfolding after_run
  after_run_keeps n (returned e, (f, s)) = conclude_keeps n e f s
  after_run_keeps n (still_leading, (f, s)) = refl

  drained_keeps :
      (n : N3000Node) (s : node.State) → n.spec.dry_run ≡ true → log_after (drained R n s) ≡ log s
  unfolding drained
  drained_keeps n s dry =
      after_run_keeps n (run (host R) (worker R n.spec) (not n.spec.drain_skip) (none, s))
      ∙ run_keeps (host R) (λ (p : Option Error × node.State). log p.1) A.libraries_keep
          (worker R n.spec)
          (λ (p : Option Error × node.State). worker_dry_run R L n.spec p.0 p.1 dry)
          (not n.spec.drain_skip) (none, s)

  verify_and_flash_keeps :
      (n : N3000Node) (s : node.State)
      → n.spec.dry_run ≡ true
      → log_after (verify_and_flash R n s) ≡ log s
  unfolding verify_and_flash
  verify_and_flash_keeps n s dry =
      handle_unchanged log log_after (verify_wanted_fpga R n.spec) _ _
        (verify_wanted_fpga-Keeps n.spec)
        (λ u.
          handle_unchanged log log_after (verify_wanted_fortville R n.spec) _ _
            (verify_wanted_fortville-Keeps n.spec) (λ v t. drained_keeps n t dry)
            (λ e t. update_flash_condition_keeps n _ _ _ t))
        (λ e t. update_flash_condition_keeps n _ _ _ t) s

  -- The resource at hand has the same spec after its status was updated.
  update_status-spec :
      (n : N3000Node) (c : Condition) (s : node.State) → (update_status R n c s).1.0.spec ≡ n.spec
  unfolding update_status
  update_status-spec n c s = by_result (get_node_status R s).0 refl
    where
      by_result :
          (r : Result N3000NodeStatus)
          → (get_node_status R s).0 ≡ r
          → (update_status R n c s).1.0.spec ≡ n.spec
      by_result (ok status) e = rw (update_status, e, handle, branch) refl
      by_result (err x) e = rw (update_status, e, handle, branch) refl

  start_flash_keeps :
      (n : N3000Node) (c : Option Condition) (s : node.State)
      → n.spec.dry_run ≡ true
      → log_after (start_flash R n c s) ≡ log s
  unfolding start_flash
  start_flash_keeps n none s dry = verify_and_flash_keeps n s dry
  start_flash_keeps n (some current) s dry =
      by_update (update_status R n started s) (update_status-spec n started s)
        (update_status_keeps n started s)
    where
      started : Condition
      started = record current {
        status = condition_false;
        reason = "InProgress";
        message = "Flash started";
      }

      by_update :
          (u : Result (Unit {0}) × (N3000Node × node.State))
          → u.1.0.spec ≡ n.spec
          → log u.1.1 ≡ log s
          → log_after (elim u.0 [
            | ok v ↦ verify_and_flash R u.1.0 u.1.1
            | err e ↦ (replied (failed e), u.1.1)
          ])
            ≡ log s
      by_update (ok v, (n', t)) same kept =
          verify_and_flash_keeps n' t (ground (arith, same, dry)) ∙ kept
      by_update (err x, (n', t)) same kept = kept

  handle_node_keeps :
      (n : N3000Node) (s : node.State)
      → n.spec.dry_run ≡ true
      → log_after (handle_node R n s) ≡ log s
  unfolding handle_node
  handle_node_keeps n s dry = by_spec (verify_spec n.spec)
    where
      by_spec :
          (r : Result (Unit {0}))
          → log_after (elim r [
            | err e ↦ fails R n e s
            | ok u ↦
                if nothing_to_do n.spec
                then (
                  replied done,
                  update_flash_condition R n condition_false "NotRequested" "Inventory up to date"
                      s,
                )
                else start_flash R n (find_status_condition n.status.conditions flash_condition) s
          ])
            ≡ log s
      by_spec (err e) = update_flash_condition_keeps n _ _ _ s
      by_spec (ok u) = elim (Bool-cases (nothing_to_do n.spec)) [
        | inl h ↦ rw h (update_flash_condition_keeps n _ _ _ s)
        | inr h ↦ rw h (start_flash_keeps n _ s dry)
      ]

  create_empty-Keeps : Keeps log (create_empty_n3000_node_if_needed R)
  unfolding create_empty_n3000_node_if_needed
  create_empty-Keeps =
      handle-Keeps log (R.get _) _ _ (A.get_keeps _) (λ n s. refl)
        (λ e. if-Keeps log (is_not_found e) (R.create _) (raise e) (A.create_keeps _) (λ s. refl))

  -- Where every resource that the API server gives asks for a dry run, a reconciliation runs none of
  -- the commands that update or restart a card, whatever the request, the resource and its conditions
  -- are, and whether any step of it fails.
  pub reconcile_dry_run :
      (k : Key) (s : node.State)
      → ((n : N3000Node) → (R.get k s).0 ≡ ok n → n.spec.dry_run ≡ true)
      → log (reconcile R k s).1 ≡ log s
  unfolding reconcile
  reconcile_dry_run k s dry = elim (Bool-cases (k.namespace == R.namespace)) [
    | inr h ↦ rw h refl
    | inl h ↦ elim (Bool-cases (k.name == R.node_name)) [
      | inr g ↦ rw (h, g) refl
      | inl g ↦ rw (h, g) (by_result (R.get k s).0 refl)
    ]
  ]
    where
      not_there : Error → node.State → Reply × node.State
      not_there e =
          if is_not_found e
          then handle (create_empty_n3000_node_if_needed R) (λ _ t. (replied done, t))
              (λ x t. (replied (failed x), t))
          else (λ t. (replied (failed e), t))

      not_there_keeps : (e : Error) (t : node.State) → log_after (not_there e t) ≡ log t
      not_there_keeps e t = elim (Bool-cases (is_not_found e)) [
        | inl h ↦ rw h (
            handle_unchanged log log_after (create_empty_n3000_node_if_needed R)
              (λ _ u. (replied done, u)) (λ x u. (replied (failed x), u)) create_empty-Keeps
              (λ u v. refl) (λ e v. refl) t)
        | inr h ↦ rw h refl
      ]

      by_result :
          (r : Result N3000Node)
          → (R.get k s).0 ≡ r
          → log_after (handle (R.get k) (handle_node R) not_there s) ≡ log s
      by_result (ok n) e = rw e (handle_node_keeps n (R.get k s).1 (dry n e) ∙ A.get_keeps k s)
      by_result (err x) e = rw e (not_there_keeps x (R.get k s).1 ∙ A.get_keeps k s)
