-- ===== src/N3000/Program/Commands.antt =====
-- Which commands programming the FPGAs runs, in which order, and where it stops.
use openshift_operator.Base.{
  ◌⊎◌, inl, inr, ℕ, suc, ◌≡◌, refl, ap, arith, Bool, true, false, String, List, [], ◌∷◌, ◌++◌,
  Error, Result, ok, err, Exec, pure, ◌>>◌, if◌then◌else◌, Keeps, bind-Keeps, then-Keeps,
}
use openshift_operator.Api.Fpga.{N3000Fpga, N3000NodeSpec}
use openshift_operator.N3000.{Node, run_exec, run_exec_with_log}
use openshift_operator.N3000.Bmc.{fpga_info_bmc}
use openshift_operator.N3000.Temperature.{check_fpga_die_temperature}
use openshift_operator.N3000.Program.{
  elements, image_path, program_fpga, program_from, program_fpgas,
}

abbrev pub Command : Type 0
Command = String × List String

-- The commands of a node that change it are logged, also one that fails; to ask for the state of the
-- cards is not logged.
pub record Logs (N : Node) : Type 0 where
  pub log : N.State → List Command
  pub run_logs :
      (name : String) (args : List String) (s : N.State)
      → log (N.run name args s).1 ≡ log s ++ ((name, args) ∷ [])
  pub info_keeps : (name : String) (args : List String) → Keeps log (N.combined_output name args)

-- What the resource wants run: for each FPGA, in order, the update with its image and the power cycle.
unfoldable pub wanted_commands : ℕ → List N3000Fpga → List Command
wanted_commands i [] = []
wanted_commands i (f ∷ fs) =
    ("fpgasupdate", image_path i ∷ f.pci_addr ∷ [])
    ∷ ("rsu", "bmcimg" ∷ f.pci_addr ∷ [])
    ∷ wanted_commands (suc i) fs

append_assoc : (xs ys zs : List Command) → (xs ++ ys) ++ zs ≡ xs ++ (ys ++ zs)
append_assoc [] ys zs = refl
append_assoc (x ∷ xs) ys zs = ap (λ (l : List Command). x ∷ l) (append_assoc xs ys zs)

append_nil : (xs : List Command) → xs ++ [] ≡ xs
append_nil [] = refl
append_nil (x ∷ xs) = ap (λ (l : List Command). x ∷ l) (append_nil xs)

module _ (N : Node) (L : Logs N) where
  open N use {State}
  open L use {log}

  -- The step ran a first part of the commands, and all of them where it returned no error.
  unfoldable pub Runs : List Command → Exec State (Unit {0}) → State → Type 0
  Runs commands m s =
      (done rest : List Command) × (commands ≡ done ++ rest)
      × (log (m s).1 ≡ log s ++ done)
      × ((rest ≡ []) ⊎ ((e : Error) × ((m s).0 ≡ err e)))

  run-Runs :
      (name : String) (args : List String) (s : State)
      → Runs ((name, args) ∷ []) (run_exec_with_log N name args false) s
  unfolding Runs run_exec_with_log
  run-Runs name args s = ((name, args) ∷ [], [], refl, L.run_logs name args s, inl refl)

  -- A step that keeps the log runs nothing.
  keeping-Runs : (m : Exec State (Unit {0})) (s : State) → Keeps log m → Runs [] m s
  unfolding Runs
  keeping-Runs m s keeps = ([], [], refl, ground (arith, keeps s, append_nil (log s)), inl refl)

  -- One after the other.
  then-Runs :
      (cs ds : List Command) (m k : Exec State (Unit {0})) (s : State)
      → Runs cs m s
      → Runs ds k (m s).1
      → Runs (cs ++ ds) (m >> k) s
  unfolding Runs
  then-Runs cs ds m k s (done1, rest1, e1, l1, a1) (done2, rest2, e2, l2, a2) =
      by_result (m s).0 refl
    where
      -- After a first step without an error.
      go_on : (u : Unit {0}) → (m s).0 ≡ ok u → rest1 ≡ [] → Runs (cs ++ ds) (m >> k) s
      go_on u e r = (
        done1 ++ done2,
        rest2,
        ground (arith, e1, e2, r, append_nil done1, append_assoc done1 done2 rest2),
        ground (arith, e, l1, l2, append_assoc (log s) done1 done2),
        elim a2 [ inl h ↦ inl h | inr (x, h) ↦ inr (x, ground (arith, e, h)) ],
      )

      by_result : (r : Result (Unit {0})) → (m s).0 ≡ r → Runs (cs ++ ds) (m >> k) s
      by_result (ok u) e = elim a1 [
        | inl r ↦ go_on u e r
        | inr (x, h) ↦ absurd (ground (arith, e, h))
      ]
      by_result (err x) e = (
        done1,
        rest1 ++ ds,
        ground (arith, e1, append_assoc done1 rest1 ds),
        ground (arith, e, l1),
        inr (x, ground (arith, e)),
      )

  pub check-Keeps : (pci : String) → Keeps log (check_fpga_die_temperature N pci)
  unfolding check_fpga_die_temperature run_exec
  check-Keeps pci = bind-Keeps log (fpga_info_bmc N) _ (L.info_keeps _ _) (λ _ s. refl)

  program_from-Runs :
      (i : ℕ) (fs : List N3000Fpga) (s : State)
      → Runs (wanted_commands i fs) (program_from N i fs false) s
  unfolding program_from program_fpga wanted_commands
  program_from-Runs i [] s = keeping-Runs (pure tt) s (λ t. refl)
  program_from-Runs i (f ∷ fs) s =
      let check = check_fpga_die_temperature N f.pci_addr in
      let update = run_exec_with_log N "fpgasupdate" (image_path i ∷ f.pci_addr ∷ []) false in
      let cycle = run_exec_with_log N "rsu" ("bmcimg" ∷ f.pci_addr ∷ []) false in
      let rest = program_from N (suc i) fs false in
      then-Runs [] (wanted_commands i (f ∷ fs)) check (update >> cycle >> rest) s
        (keeping-Runs check s (check-Keeps f.pci_addr))
        (then-Runs _ (wanted_commands (suc i) fs) (update >> cycle) rest (check s).1
          (then-Runs (_ ∷ []) (_ ∷ []) update cycle (check s).1
            (run-Runs "fpgasupdate" _ (check s).1) (run-Runs "rsu" _ (update (check s).1).1))
          (program_from-Runs (suc i) fs ((update >> cycle) (check s).1).1))

  program_from-Keeps : (i : ℕ) (fs : List N3000Fpga) → Keeps log (program_from N i fs true)
  unfolding program_from program_fpga run_exec_with_log
  program_from-Keeps i [] = λ s. refl
  program_from-Keeps i (f ∷ fs) =
      let rest = program_from-Keeps (suc i) fs in
      then-Keeps log (check_fpga_die_temperature N f.pci_addr) _ (check-Keeps f.pci_addr) rest

  -- Programming the FPGAs runs the wanted commands, the update and the power cycle of each FPGA that
  -- the resource lists, in its order, each with the image of its number: all of them where there is
  -- no error, and otherwise those up to some point. A dry run runs none of them.
  pub program_fpgas-Runs :
      (spec : N3000NodeSpec) (s : State)
      → Runs
          (if spec.dry_run then [] else wanted_commands 0 (elements spec.fpga))
          (program_fpgas N spec)
          s
  unfolding program_fpgas
  program_fpgas-Runs spec s = by_mode spec.dry_run
    where
      by_mode :
          (b : Bool)
          → Runs
              (if b then [] else wanted_commands 0 (elements spec.fpga))
              (program_from N 0 (elements spec.fpga) b)
              s
      by_mode true =
          keeping-Runs (program_from N 0 (elements spec.fpga) true) s
            (program_from-Keeps 0 (elements spec.fpga))
      by_mode false = program_from-Runs 0 (elements spec.fpga) s

  pub program_fpgas-Keeps :
      (spec : N3000NodeSpec) → spec.dry_run ≡ true → Keeps log (program_fpgas N spec)
  unfolding program_fpgas
  program_fpgas-Keeps spec h = rw h (program_from-Keeps 0 (elements spec.fpga))
