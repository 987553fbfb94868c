-- ===== src/Fec/Apply/Applied.antt =====
-- The drivers and the amounts of virtual functions after a configuration was applied.
use openshift_operator.Base.{
  ◌≡◌, ◌≢◌, ◌⊎◌, inl, inr, refl, sym, ap, ◌∙◌, arith, ◌||◌, String, ◌<>◌, List, [], ◌∷◌, Option,
  none, some, is_some, All, Bool-cases, Exec, Result, ok, ◌>>◌, bind_parts, then_parts, Preserves,
  then-Preserves, if-Preserves,
}
use openshift_operator.Api.Sriov.{
  SriovAccelerator, NodeInventory, PhysicalFunctionConfig, SriovFecNodeConfigSpec,
}
use openshift_operator.Fec.{Machine}
use openshift_operator.Fec.Devices.{◌/path◌}
use openshift_operator.Fec.Inventory.{AcceleratorDiscoveryConfig, get_or_empty, get_sriov_inventory}
use openshift_operator.Fec.Queues.{generate_bb_dev_config_file, run_pf_config}
use openshift_operator.Fec.Apply.{
  workdir, matching_accelerator, deferring, create_vfs, enable_bus_of_stub, configure_queues,
  apply_pfs, apply_config,
}
use openshift_operator.Fec.Apply.Facts.{
  Fact, bound, amount, subject, Holds, HasSysfs, Says, generate-Preserves, run_pf_config-Preserves,
  enable_bus-Preserves,
}
use openshift_operator.Fec.Apply.Binding.{create_vfs-Preserves}
use openshift_operator.Fec.Apply.Configured.{IsConfigured, IsKnown, create_vfs-IsConfigured}

module _ (M : Machine) where
  deferring-Preserves :
      (P : M.State → Type 0) (c body : Exec M.State (Unit {0}))
      → Preserves P c
      → Preserves P body
      → Preserves P (deferring c body)
  unfolding deferring
  deferring-Preserves P c body h g s p = h (body s).1 (g s p)

  -- The configuration of the queues preserves what its steps preserve.
  queues_preserve :
      (P : M.State → Type 0) (cfg : AcceleratorDiscoveryConfig) (acc : SriovAccelerator)
      (pf : PhysicalFunctionConfig) (rest : Exec M.State (Unit {0}))
      → ((file : String) → Preserves P (generate_bb_dev_config_file M pf.bb_dev_config file))
      → ((name file : String) → Preserves P (run_pf_config M name file pf.pci_address))
      → Preserves P (enable_bus_of_stub M pf)
      → ((file : String) → Preserves P (M.remove file))
      → Preserves P rest
      → Preserves P (configure_queues M cfg acc pf rest)
  unfolding configure_queues
  queues_preserve P cfg acc pf rest generates runs buses removes rests =
      let file : String = workdir /path (pf.pci_address <> ".ini") in
      let bus : Exec M.State (Unit {0}) = enable_bus_of_stub M pf in
      let run : Exec M.State (Unit {0}) =
        run_pf_config M (get_or_empty acc.device_id cfg.devices) file pf.pci_address in
      if-Preserves P (is_some pf.bb_dev_config.n3000 || is_some pf.bb_dev_config.acc100)
        (generate_bb_dev_config_file M pf.bb_dev_config file
          >> deferring (M.remove file) (run >> bus >> rest))
        (bus >> rest)
        (then-Preserves P (generate_bb_dev_config_file M pf.bb_dev_config file)
          (deferring (M.remove file) (run >> bus >> rest)) (generates file)
          (deferring-Preserves P (M.remove file) (run >> bus >> rest) (removes file) (
            then-Preserves P (run >> bus) rest (then-Preserves P run bus (runs _ file) buses)
              rests)))
        (then-Preserves P bus rest buses rests)

  -- Where it returns no error, so did the rest, from a state that its first steps leave.
  queues_give :
      (P Q : M.State → Type 0) (cfg : AcceleratorDiscoveryConfig) (acc : SriovAccelerator)
      (pf : PhysicalFunctionConfig) (rest : Exec M.State (Unit {0}))
      → ((file : String) → Preserves P (generate_bb_dev_config_file M pf.bb_dev_config file))
      → ((name file : String) → Preserves P (run_pf_config M name file pf.pci_address))
      → Preserves P (enable_bus_of_stub M pf)
      → ((file : String) → Preserves Q (M.remove file))
      → ((t : M.State) → P t → (rest t).0 ≡ ok tt → Q (rest t).1)
      → (s : M.State) → P s
      → (configure_queues M cfg acc pf rest s).0 ≡ ok tt
      → Q (configure_queues M cfg acc pf rest s).1
  unfolding configure_queues deferring
  queues_give P Q cfg acc pf rest generates runs buses removes gives s p h =
      elim (Bool-cases (is_some pf.bb_dev_config.n3000 || is_some pf.bb_dev_config.acc100)) [
        | inl e ↦
            let configured : ((generate >> deferring (M.remove file) (run >> bus >> rest)) s).0
                ≡ ok tt =
              ground (arith, e, h) in
            let ((u, _), done, at) =
              then_parts generate (deferring (M.remove file) (run >> bus >> rest)) s configured in
            let t : M.State = (generate s).1 in
            let ((v, _), last, at') = then_parts (run >> bus) rest t done in
            let w : M.State = ((run >> bus) t).1 in
            let before : P w =
              then-Preserves P run bus (runs _ file) buses t (generates file s p) in
            rw e (
              moved _ _ at
                (removes file ((run >> bus >> rest) t).1 (moved _ _ at' (gives w before last))))
        | inr e ↦
            let plain : ((bus >> rest) s).0 ≡ ok tt = ground (arith, e, h) in
            let ((u, _), last, at) = then_parts bus rest s plain in
            rw e (moved _ _ at (gives (bus s).1 (buses s p) last))
      ]
    where
      file : String
      file = workdir /path (pf.pci_address <> ".ini")

      generate : Exec M.State (Unit {0})
      generate = generate_bb_dev_config_file M pf.bb_dev_config file

      bus : Exec M.State (Unit {0})
      bus = enable_bus_of_stub M pf

      run : Exec M.State (Unit {0})
      run = run_pf_config M (get_or_empty acc.device_id cfg.devices) file pf.pci_address

      moved : (a b : M.State) → a ≡ b → Q b → Q a
      moved a b e q = rw e q

-- Physical functions of which no two have the same address.
unfoldable pub HaveDistinct : List PhysicalFunctionConfig → Type 0
HaveDistinct [] = Unit
HaveDistinct (pf ∷ pfs) = All (λ q. q.pci_address ≢ pf.pci_address) pfs × HaveDistinct pfs

module _ (M : Machine) (H : HasSysfs M) where
  open H use {driver_of, device, parent}

  -- The configuration of other physical functions leaves a fact.
  apply_pfs-Preserves :
      (cfg : AcceleratorDiscoveryConfig) (accs : List SriovAccelerator)
      (pfs : List PhysicalFunctionConfig) (f : Fact)
      → All (IsKnown M H) pfs
      → All (λ q. (subject f ≢ q.pci_address) × (parent (subject f) ≢ some q.pci_address)) pfs
      → Preserves (Says M H f) (apply_pfs M cfg accs pfs)
  unfolding apply_pfs IsKnown
  apply_pfs-Preserves cfg accs [] f known apart s h = h
  apply_pfs-Preserves cfg accs (pf ∷ pfs) f ((there, top, pf_there, vf_there), known)
        ((other, away), apart) s h =
      by_match (matching_accelerator accs pf.pci_address) refl
        (apply_pfs-Preserves cfg accs pfs f known apart)
    where
      by_match :
          (o : Option SriovAccelerator)
          → matching_accelerator accs pf.pci_address ≡ o
          → Preserves (Says M H f) (apply_pfs M cfg accs pfs)
          → Says M H f (apply_pfs M cfg accs (pf ∷ pfs) s).1
      by_match none e rests = rw (apply_pfs, e) h
      by_match (some acc) e rests =
          rw (apply_pfs, e)
            (then-Preserves (Says M H f) (create_vfs M acc pf)
              (configure_queues M cfg acc pf (apply_pfs M cfg accs pfs))
              (create_vfs-Preserves M H f acc pf there pf_there vf_there other away)
              (queues_preserve M (Says M H f) cfg acc pf (apply_pfs M cfg accs pfs)
                (generate-Preserves M H f pf.bb_dev_config)
                (λ name file. run_pf_config-Preserves M H f name file pf.pci_address)
                (enable_bus-Preserves M H f pf) (λ file. H.remove_leaves file f) rests)
              s h)

  -- A step that leaves the facts about a physical function and its virtual functions leaves it as its
  -- configuration wants it.
  IsConfigured-Preserves :
      (pf : PhysicalFunctionConfig) (m : Exec M.State (Unit {0}))
      → ((f : Fact)
          → (subject f ≡ pf.pci_address) ⊎ (parent (subject f) ≡ some pf.pci_address)
          → Preserves (Says M H f) m)
      → Preserves (λ s. IsConfigured M H s pf) m
  unfolding IsConfigured Holds subject
  IsConfigured-Preserves pf m leaves s (driver, amounts, t, vs, listed, then_amount, owned) = (
    leaves (bound pf.pci_address pf.pf_driver) (inl refl) s driver,
    leaves (amount pf.pci_address pf.vf_amount) (inl refl) s amounts,
    t,
    vs,
    listed,
    then_amount,
    keep vs owned,
  )
    where
      keep :
          (vs : List String)
          → All (λ v. (parent v ≡ some pf.pci_address) × (driver_of s v ≡ some pf.vf_driver)) vs
          → All
              (λ v. (parent v ≡ some pf.pci_address) × (driver_of (m s).1 v ≡ some pf.vf_driver))
              vs
      keep [] h = tt
      keep (v ∷ vs) ((mine, has), h) =
          ((mine, leaves (bound v pf.vf_driver) (inr mine) s has), keep vs h)

  All-IsConfigured-Preserves :
      (pfs : List PhysicalFunctionConfig) (m : Exec M.State (Unit {0}))
      → ((f : Fact) → Preserves (Says M H f) m)
      → Preserves (λ s. All (IsConfigured M H s) pfs) m
  All-IsConfigured-Preserves [] m leaves s h = tt
  All-IsConfigured-Preserves (pf ∷ pfs) m leaves s (here, h) = (
    IsConfigured-Preserves pf m (λ f _. leaves f) s here,
    All-IsConfigured-Preserves pfs m leaves s h,
  )

  IsConfigured-at :
      (qs : List PhysicalFunctionConfig) (a b : M.State)
      → a ≡ b
      → All (IsConfigured M H b) qs
      → All (IsConfigured M H a) qs
  IsConfigured-at qs a b eq g = rw eq g

  known_top : (pf : PhysicalFunctionConfig) → IsKnown M H pf → parent pf.pci_address ≡ none
  unfolding IsKnown
  known_top pf (there, top, driver, vf_driver) = top

  -- The facts about a physical function and its virtual functions are not about the other ones.
  apart_from :
      (pf : PhysicalFunctionConfig) (pfs : List PhysicalFunctionConfig) (f : Fact)
      → parent pf.pci_address ≡ none
      → All (IsKnown M H) pfs
      → All (λ q. q.pci_address ≢ pf.pci_address) pfs
      → (subject f ≡ pf.pci_address) ⊎ (parent (subject f) ≡ some pf.pci_address)
      → All (λ q. (subject f ≢ q.pci_address) × (parent (subject f) ≢ some q.pci_address)) pfs
  unfolding IsKnown
  apart_from pf [] f top known others about = tt
  apart_from pf (q ∷ qs) f top ((there, q_top, q_driver, q_vf_driver), known) (other, others)
        about =
      (one about, apart_from pf qs f top known others about)
    where
      one :
          (subject f ≡ pf.pci_address) ⊎ (parent (subject f) ≡ some pf.pci_address)
          → (subject f ≢ q.pci_address) × (parent (subject f) ≢ some q.pci_address)
      one (inl same) =
          (λ e. other (sym e ∙ same), λ e. absurd (ground (arith, sym (ap parent same) ∙ e, top)))
      one (inr mine) = (
        λ e. absurd (ground (arith, sym (ap parent e) ∙ mine, q_top)),
        λ e. other (ground (arith, sym e ∙ mine)),
      )

  apply_pfs-IsConfigured :
      (cfg : AcceleratorDiscoveryConfig) (accs : List SriovAccelerator)
      (pfs : List PhysicalFunctionConfig) (s : M.State)
      → All (IsKnown M H) pfs
      → HaveDistinct pfs
      → (apply_pfs M cfg accs pfs s).0 ≡ ok tt
      → All (IsConfigured M H (apply_pfs M cfg accs pfs s).1) pfs
  unfolding apply_pfs HaveDistinct
  apply_pfs-IsConfigured cfg accs [] s known distinct h = tt
  apply_pfs-IsConfigured cfg accs (pf ∷ pfs) s (here, known) (others, distinct) h =
      by_match (matching_accelerator accs pf.pci_address) refl
        (λ t. apply_pfs-IsConfigured cfg accs pfs t known distinct)
    where
      rest : Exec M.State (Unit {0})
      rest = apply_pfs M cfg accs pfs

      by_match :
          (o : Option SriovAccelerator)
          → matching_accelerator accs pf.pci_address ≡ o
          → ((t : M.State) → (rest t).0 ≡ ok tt → All (IsConfigured M H (rest t).1) pfs)
          → All (IsConfigured M H (apply_pfs M cfg accs (pf ∷ pfs) s).1) (pf ∷ pfs)
      by_match none e ih = absurd (ground (arith, e, h))
      by_match (some acc) e ih =
          let create : Exec M.State (Unit {0}) = create_vfs M acc pf in
          let queues : Exec M.State (Unit {0}) = configure_queues M cfg acc pf rest in
          let both : ((create >> queues) s).0 ≡ ok tt = ground (arith, e, h) in
          let ((u, made), configured, at) = then_parts create queues s both in
          let step : apply_pfs M cfg accs (pf ∷ pfs) s ≡ (create >> queues) s =
            rw (apply_pfs, e) refl in
          (IsConfigured-at (pf ∷ pfs) _ _ (ap (λ (r : Result (Unit {0}) × M.State). r.1) step ∙ at)
            (queues_give M (λ t. IsConfigured M H t pf) (λ t. All (IsConfigured M H t) (pf ∷ pfs))
              cfg acc pf rest
              (λ file.
                IsConfigured-Preserves pf (generate_bb_dev_config_file M pf.bb_dev_config file)
                  (λ f _. generate-Preserves M H f pf.bb_dev_config file))
              (λ name file.
                IsConfigured-Preserves pf (run_pf_config M name file pf.pci_address)
                  (λ f _. run_pf_config-Preserves M H f name file pf.pci_address))
              (IsConfigured-Preserves pf (enable_bus_of_stub M pf)
                (λ f _. enable_bus-Preserves M H f pf))
              (λ file.
                All-IsConfigured-Preserves (pf ∷ pfs) (M.remove file) (λ f. H.remove_leaves file f))
              (λ t mine done. (
                IsConfigured-Preserves pf rest
                    (λ f about.
                      apply_pfs-Preserves cfg accs pfs f known
                        (apart_from pf pfs f (known_top pf here) known others about))
                    t mine,
                ih t done,
              ))
              (create s).1 (create_vfs-IsConfigured M H acc pf s here made) configured))

  -- Where a configuration is applied without an error, and its physical functions are known to the node
  -- and no two of them have the same address, each of them has its driver and its amount of virtual
  -- functions, and the virtual functions that were listed once this amount was configured have their
  -- driver, also after the later physical functions were configured.
  pub apply_config-IsConfigured :
      (cfg : AcceleratorDiscoveryConfig) (spec : SriovFecNodeConfigSpec) (s : M.State)
      → All (IsKnown M H) spec.physical_functions
      → HaveDistinct spec.physical_functions
      → (apply_config M cfg spec s).0 ≡ ok tt
      → All (IsConfigured M H (apply_config M cfg spec s).1) spec.physical_functions
  unfolding apply_config
  apply_config-IsConfigured cfg spec s known distinct h =
      let apply : NodeInventory → Exec M.State (Unit {0}) =
        λ inv. apply_pfs M cfg inv.sriov_accelerators spec.physical_functions in
      let (inv, e, done, at) = bind_parts (get_sriov_inventory M cfg) apply s h in
      let t : M.State = (get_sriov_inventory M cfg s).1 in
      IsConfigured-at spec.physical_functions _ _ at (
        apply_pfs-IsConfigured cfg inv.sriov_accelerators spec.physical_functions t known distinct
          done)
