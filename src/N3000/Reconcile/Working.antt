-- ===== src/N3000/Reconcile/Working.antt =====
-- What the worker of the reconciler has done where it leaves no error, and where it leaves one.
use openshift_operator.Base.{
  ◌≡◌, refl, sym, ap, ◌∙◌, arith, Bool, true, false, List, [], ◌∷◌, ◌++◌, ◌⊎◌, inl, inr, Option,
  none, some, Error, Result, ok, err, if◌then◌else◌,
}
use openshift_operator.Api.Fpga.{N3000Fpga, N3000NodeSpec}
use openshift_operator.N3000.Program.{elements, program_fpgas}
use openshift_operator.N3000.Program.Commands.{
  Command, Logs, wanted_commands, Runs, program_fpgas-Runs,
}
use openshift_operator.N3000.Reconcile.{Reconciler, program_wanted, flash_wanted, worker}

append_nil : (xs : List Command) → xs ++ [] ≡ xs
append_nil [] = refl
append_nil (x ∷ xs) = ap (λ (l : List Command). x ∷ l) (append_nil xs)

-- The commands for the FPGAs of a resource; a dry run has none.
unfoldable pub fpga_commands : N3000NodeSpec → List Command
fpga_commands spec = if spec.dry_run then [] else wanted_commands 0 (elements spec.fpga)

module _ (R : Reconciler) (L : Logs R.node) where
  open R use {node}
  open L use {log}

  -- Programming without an error has run all commands.
  pub program_fpgas-log :
      (spec : N3000NodeSpec) (s : node.State)
      → (program_fpgas node spec s).0 ≡ ok tt
      → log (program_fpgas node spec s).1 ≡ log s ++ fpga_commands spec
  unfolding Runs fpga_commands
  program_fpgas-log spec s h =
      let (ran, rest, e, logged, complete) = program_fpgas-Runs node L spec s in
      elim complete [
        | inl none_left ↦ ground (arith, e, logged, none_left, append_nil ran)
        | inr (x, failed) ↦ absurd (ground (arith, failed, h))
      ]

  pub program_wanted-log :
      (spec : N3000NodeSpec) (s : node.State)
      → (program_wanted R spec s).0 ≡ ok tt
      → log (program_wanted R spec s).1 ≡ log s ++ fpga_commands spec
  unfolding program_wanted fpga_commands wanted_commands
  program_wanted-log spec s h = by_fpga spec.fpga refl spec.dry_run refl
    where
      by_fpga :
          (o : Option (List N3000Fpga))
          → spec.fpga ≡ o
          → (dry : Bool) → spec.dry_run ≡ dry
          → log (program_wanted R spec s).1 ≡ log s ++ fpga_commands spec
      by_fpga none e true d = ground (arith, e, d, append_nil (log s))
      by_fpga none e false d = ground (arith, e, d, append_nil (log s))
      by_fpga (some fs) e dry d =
          let run_all : program_wanted R spec s ≡ program_fpgas node spec s = ground (arith, e) in
          ap (λ (r : Result (Unit {0}) × node.State). log r.1) run_all
          ∙ program_fpgas-log spec s
              (sym (ap (λ (r : Result (Unit {0}) × node.State). r.0) run_all) ∙ h)

  -- A worker that leaves no error has programmed and flashed without one.
  pub worker_flashed :
      (spec : N3000NodeSpec) (p : Option Error × node.State)
      → (worker R spec p).1.0 ≡ none
      → let s = (program_wanted R spec p.1).1 in
        ((program_wanted R spec p.1).0 ≡ ok tt)
        × ((flash_wanted R spec s).0 ≡ ok tt)
        × ((worker R spec p).1.1 ≡ (flash_wanted R spec s).1)
  unfolding worker
  worker_flashed spec (flash_err, s) h =
      by_results (program_wanted R spec s).0 (flash_wanted R spec t).0 refl refl
    where
      t : node.State
      t = (program_wanted R spec s).1

      by_results :
          (q r : Result (Unit {0}))
          → (program_wanted R spec s).0 ≡ q
          → (flash_wanted R spec t).0 ≡ r
          → ((program_wanted R spec s).0 ≡ ok tt)
            × ((flash_wanted R spec t).0 ≡ ok tt)
            × ((worker R spec (flash_err, s)).1.1 ≡ (flash_wanted R spec t).1)
      by_results (ok u) (ok v) e f = (e, f, ground (arith, e, f))
      by_results (ok u) (err x) e f = absurd (ground (arith, e, f, h))
      by_results (err x) r e f = absurd (ground (arith, e, h))

  -- An error that a worker leaves is that of the programming, or else of the flashing.
  pub worker_failed :
      (spec : N3000NodeSpec) (p : Option Error × node.State) (e : Error)
      → p.0 ≡ none
      → (worker R spec p).1.0 ≡ some e
      → ((program_wanted R spec p.1).0 ≡ err e)
        ⊎ (((program_wanted R spec p.1).0 ≡ ok tt)
            × ((flash_wanted R spec (program_wanted R spec p.1).1).0 ≡ err e))
  unfolding worker
  worker_failed spec (flash_err, s) e fresh h =
      by_results (program_wanted R spec s).0 (flash_wanted R spec t).0 refl refl
    where
      t : node.State
      t = (program_wanted R spec s).1

      by_results :
          (q r : Result (Unit {0}))
          → (program_wanted R spec s).0 ≡ q
          → (flash_wanted R spec t).0 ≡ r
          → ((program_wanted R spec s).0 ≡ err e)
            ⊎ (((program_wanted R spec s).0 ≡ ok tt) × ((flash_wanted R spec t).0 ≡ err e))
      by_results (ok u) (ok v) eq f = absurd (ground (arith, eq, f, h, fresh))
      by_results (ok u) (err x) eq f = inr (ground (arith, eq, f, h), ground (arith, eq, f, h))
      by_results (err x) r eq f = inl (ground (arith, eq, h))

  -- The worker always asks for the uncordon.
  pub worker_asks :
      (spec : N3000NodeSpec) (p : Option Error × node.State) → (worker R spec p).0 ≡ true
  unfolding worker
  worker_asks spec (flash_err, s) =
      by_results (program_wanted R spec s).0 (flash_wanted R spec (program_wanted R spec s).1).0
        refl refl
    where
      by_results :
          (q r : Result (Unit {0}))
          → (program_wanted R spec s).0 ≡ q
          → (flash_wanted R spec (program_wanted R spec s).1).0 ≡ r
          → (worker R spec (flash_err, s)).0 ≡ true
      by_results (ok u) (ok v) e f = ground (arith, e, f)
      by_results (ok u) (err x) e f = ground (arith, e, f)
      by_results (err x) r e f = ground (arith, e)
