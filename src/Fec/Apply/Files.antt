-- ===== src/Fec/Apply/Files.antt =====
-- The files of the queue configurations before and after a configuration is applied.
use openshift_operator.Base.{
  ◌≡◌, ◌≢◌, ◌⊎◌, inl, inr, refl, sym, ◌∙◌, ap, arith, Bool, true, ◌||◌, String, ◌<>◌, List, [], ◌∷◌,
  Option, none, some, is_some, Exec, Result, ok, ◌>>◌, bind-eq-ok, Bool-cases, Option-cases, Keeps,
  then-Keeps,
}
use openshift_operator.Api.Sriov.{
  SriovAccelerator, N3000BbDevConfig, Acc100BbDevConfig, BbDevConfig, PhysicalFunctionConfig,
  SriovFecNodeConfigSpec,
}
use openshift_operator.Fec.{Machine}
use openshift_operator.Fec.Devices.{◌/path◌}
use openshift_operator.Fec.Inventory.{AcceleratorDiscoveryConfig, get_or_empty, get_sriov_inventory}
use openshift_operator.Fec.Inventory.Laws.{ReadsOnly, get_sriov_inventory_keeps}
use openshift_operator.Fec.Queues.{
  acc100_file, n3000_file, generate_bb_dev_config_file, generate_acc100_bb_dev_config_file,
  generate_n3000_bb_dev_config_file, run_pf_config,
}
use openshift_operator.Fec.Apply.{
  workdir, matching_accelerator, deferring, create_vfs, enable_bus_of_stub, configure_queues,
  apply_pfs, apply_config,
}
use openshift_operator.Fec.Apply.Keeping.{
  HasFiles, create_vfs-Keeps, run_pf_config-Keeps, enable_bus-Keeps,
}

-- No file that is there is refused to be removed.
abbrev pub Removes : (M : Machine) → HasFiles M → Type 0
Removes M F = (file : String) (s : M.State) → F.has_file s file ≡ true → (M.remove file s).0 ≡ ok tt

module _ (M : Machine) (F : HasFiles M) (D : Removes M F) where
  open F use {has_file}

  -- What is there after a removal is another file that was there before.
  left_after :
      (file p : String) (s : M.State)
      → has_file (M.remove file s).1 p ≡ true
      → (p ≢ file) × (has_file s p ≡ true)
  left_after file p s h = elim (Bool-cases (has_file s file)) [
    | inl e ↦ F.removed file p s (D file s e) h
    | inr e ↦
        let there : has_file s p ≡ true = F.remove_adds_none file p s h in
        ((λ same. absurd (ground (arith, ap (has_file s) same, there, e))), there)
  ]

  -- A step that returns no error makes no file.
  LeavesNone : Exec M.State (Unit {0}) → Type 0
  LeavesNone m =
      (s : M.State) (p : String) → (m s).0 ≡ ok tt → has_file (m s).1 p ≡ true → has_file s p ≡ true

  then-LeavesNone :
      (m k : Exec M.State (Unit {0})) → Keeps has_file m → LeavesNone k → LeavesNone (m >> k)
  unfolding LeavesNone
  then-LeavesNone m k kept none_left s p h g =
      let (a, e, eq) = bind-eq-ok m (λ _. k) s h in
      let h' = sym (ap (λ (r : Result (Unit {0}) × M.State). r.0) eq) ∙ h in
      let g' = sym (ap (λ (r : Result (Unit {0}) × M.State). has_file r.1 p) eq) ∙ g in
      sym (ap (λ (f : String → Bool). f p) (kept s)) ∙ none_left (m s).1 p h' g'

  generated :
      (b : BbDevConfig) (file p : String) (s : M.State)
      → has_file (generate_bb_dev_config_file M b file s).1 p ≡ true
      → (p ≡ file) ⊎ (has_file s p ≡ true)
  unfolding generate_bb_dev_config_file generate_acc100_bb_dev_config_file
      generate_n3000_bb_dev_config_file
  generated b file p s g = by_parts b.acc100 b.n3000 refl refl
    where
      by_parts :
          (o : Option Acc100BbDevConfig) (n : Option N3000BbDevConfig)
          → b.acc100 ≡ o
          → b.n3000 ≡ n
          → (p ≡ file) ⊎ (has_file s p ≡ true)
      by_parts (some nc) n e e' = ground (arith, F.saved (acc100_file nc) file p s)
      by_parts none (some nc) e e' = ground (arith, F.saved (n3000_file nc) file p s)
      by_parts none none e e' = inr (ground arith)

  queues-LeavesNone :
      (b : BbDevConfig) (file : String) (tool rest : Exec M.State (Unit {0}))
      → Keeps has_file tool
      → LeavesNone rest
      → LeavesNone
          (generate_bb_dev_config_file M b file >> deferring (M.remove file) (tool >> rest))
  unfolding LeavesNone deferring
  queues-LeavesNone b file tool rest kept none_left s p h g =
      let body : Exec M.State (Unit {0}) = tool >> rest in
      let (a, e, eq) =
        bind-eq-ok (generate_bb_dev_config_file M b file) (λ _. deferring (M.remove file) body) s
          h in
      let s1 : M.State = (generate_bb_dev_config_file M b file s).1 in
      let h' = sym (ap (λ (r : Result (Unit {0}) × M.State). r.0) eq) ∙ h in
      let g' = sym (ap (λ (r : Result (Unit {0}) × M.State). has_file r.1 p) eq) ∙ g in
      let (other, there) = left_after file p (body s1).1 g' in
      elim (generated b file p s (then-LeavesNone tool rest kept none_left s1 p h' there)) [
        | inl same ↦ absurd (other same)
        | inr before ↦ before
      ]

  configure_queues-LeavesNone :
      (cfg : AcceleratorDiscoveryConfig) (acc : SriovAccelerator) (pf : PhysicalFunctionConfig)
      (rest : Exec M.State (Unit {0}))
      → LeavesNone rest
      → LeavesNone (configure_queues M cfg acc pf rest)
  unfolding configure_queues LeavesNone
  configure_queues-LeavesNone cfg acc pf rest none_left s p h g =
      let file = workdir /path (pf.pci_address <> ".ini") in
      let name = get_or_empty acc.device_id cfg.devices in
      let bus : Exec M.State (Unit {0}) = enable_bus_of_stub M pf in
      let run : Exec M.State (Unit {0}) = run_pf_config M name file pf.pci_address in
      elim (Bool-cases (is_some pf.bb_dev_config.n3000 || is_some pf.bb_dev_config.acc100)) [
        | inl e ↦
            queues-LeavesNone pf.bb_dev_config file (run >> bus) rest
              (then-Keeps has_file run bus (run_pf_config-Keeps M F name file pf.pci_address)
                (enable_bus-Keeps M F pf))
              none_left s p (ground (arith, e, h)) (ground (arith, e, g))
        | inr e ↦
            then-LeavesNone bus rest (enable_bus-Keeps M F pf) none_left s p (ground (arith, e, h))
              (ground (arith, e, g))
      ]

  apply_pfs-LeavesNone :
      (cfg : AcceleratorDiscoveryConfig) (accs : List SriovAccelerator)
      (pfs : List PhysicalFunctionConfig)
      → LeavesNone (apply_pfs M cfg accs pfs)
  unfolding apply_pfs LeavesNone
  apply_pfs-LeavesNone cfg accs [] s p h g = g
  apply_pfs-LeavesNone cfg accs (pf ∷ pfs) s p h g =
      let rest : Exec M.State (Unit {0}) = apply_pfs M cfg accs pfs in
      elim (Option-cases (matching_accelerator accs pf.pci_address)) [
        | inl e ↦ absurd (ground (arith, e, h))
        | inr (acc, e) ↦
            then-LeavesNone (create_vfs M acc pf) (configure_queues M cfg acc pf rest)
              (create_vfs-Keeps M F acc pf)
              (configure_queues-LeavesNone cfg acc pf rest (apply_pfs-LeavesNone cfg accs pfs)) s p
              (ground (arith, e, h)) (ground (arith, e, g))
      ]

module _ (M : Machine) (F : HasFiles M) (D : Removes M F) (R : ReadsOnly M) where
  open F use {has_file}

  -- Where no file is refused to be removed, a configuration that is applied without an error leaves no
  -- file that was not there before: the files of the queue configurations are removed.
  pub apply_config-files :
      (cfg : AcceleratorDiscoveryConfig) (spec : SriovFecNodeConfigSpec) (s : M.State) (p : String)
      → (apply_config M cfg spec s).0 ≡ ok tt
      → has_file (apply_config M cfg spec s).1 p ≡ true
      → has_file s p ≡ true
  unfolding apply_config LeavesNone
  apply_config-files cfg spec s p h g =
      let (inv, e, eq) =
        bind-eq-ok (get_sriov_inventory M cfg)
          (λ inv. apply_pfs M cfg inv.sriov_accelerators spec.physical_functions) s h in
      let h' = sym (ap (λ (r : Result (Unit {0}) × M.State). r.0) eq) ∙ h in
      let g' = sym (ap (λ (r : Result (Unit {0}) × M.State). has_file r.1 p) eq) ∙ g in
      sym (ap (λ (t : M.State). has_file t p) (get_sriov_inventory_keeps M R cfg s))
      ∙ apply_pfs-LeavesNone M F D cfg inv.sriov_accelerators spec.physical_functions _ p h' g'
