-- ===== src/Fec/Apply/Keeping.antt =====
-- The steps of a configuration that make no file.
use openshift_operator.Base.{
  ℕ, ◌≡◌, ◌≢◌, ◌⊎◌, inl, inr, refl, arith, Bool, true, false, String, ◌<>◌, List, [], ◌∷◌,
  is_not_exist, ltb, ok, Exec, pure, raise, ◌>>=◌, ◌>>◌, Option-cases, if◌then◌else◌, Keeps,
  bind-Keeps, then-Keeps, handle-Keeps, if-Keeps,
}
use openshift_operator.Api.Sriov.{SriovAccelerator, PhysicalFunctionConfig}
use openshift_operator.Fec.{Machine, IniSection, exec_cmd}
use openshift_operator.Fec.Devices.{
  load_module, is_device_bound_to_driver, unbind_device_from_driver, override_and_bind,
  bind_device_to_driver, write_vfs, write_new_amount, change_amount_of_vfs,
}
use openshift_operator.Fec.MasterBus.{
  set_from, set_command, enable_master_bus, split_equals, parse_int, without_newline, format_hex,
  set_master_bus,
}
use openshift_operator.Fec.Queues.{run_pf_config}
use openshift_operator.Fec.Apply.{is_pci_stub, has_vfs, bind_vfs, create_vfs, enable_bus_of_stub}

-- The regular files of the node: commands and writes to the sysfs make none, saving an ini file
-- makes that file at most, and a removal that returns no error has removed the file; any removal makes
-- none.
pub record HasFiles (M : Machine) : Type 0 where
  pub has_file : M.State → String → Bool
  pub output_keeps : (cmd : String) (args : List String) → Keeps has_file (M.output cmd args)
  pub stat_keeps : (path : String) → Keeps has_file (M.stat path)
  pub link_keeps : (path : String) → Keeps has_file (M.eval_symlinks path)
  pub write_keeps : (path text : String) → Keeps has_file (M.write_file path text)
  pub vf_list_keeps : (address : String) → Keeps has_file (M.vf_list address)
  pub saved :
      (content : List IniSection) (file p : String) (s : M.State)
      → has_file (M.save_to content file s).1 p ≡ true
      → (p ≡ file) ⊎ (has_file s p ≡ true)
  pub removed :
      (file p : String) (s : M.State)
      → (M.remove file s).0 ≡ ok tt
      → has_file (M.remove file s).1 p ≡ true
      → (p ≢ file) × (has_file s p ≡ true)
  pub remove_adds_none :
      (file p : String) (s : M.State) → has_file (M.remove file s).1 p ≡ true → has_file s p ≡ true

module _ (M : Machine) (F : HasFiles M) where
  open F use {has_file}

  exec_cmd-Keeps : (args : List String) → Keeps has_file (exec_cmd M args)
  unfolding exec_cmd
  exec_cmd-Keeps [] s = refl
  exec_cmd-Keeps (cmd ∷ args) s =
      handle-Keeps has_file (M.output cmd args) pure raise (F.output_keeps cmd args) (λ a t. refl)
        (λ e t. refl) s

  load_module-Keeps : (name : String) → Keeps has_file (load_module M name)
  unfolding load_module
  load_module-Keeps name = bind-Keeps has_file (exec_cmd M _) _ (exec_cmd-Keeps _) (λ a s. refl)

  is_device_bound-Keeps : (d : String) → Keeps has_file (is_device_bound_to_driver M d)
  unfolding is_device_bound_to_driver
  is_device_bound-Keeps d =
      handle-Keeps has_file (M.stat _) _ _ (F.stat_keeps _) (λ a s. refl)
        (λ e. if-Keeps has_file (is_not_exist e) (pure false) (raise e) (λ s. refl) (λ s. refl))

  override_and_bind-Keeps : (d x : String) → Keeps has_file (override_and_bind M d x)
  unfolding override_and_bind
  override_and_bind-Keeps d x =
      bind-Keeps has_file (M.write_file _ _) _ (F.write_keeps _ _) (λ a. F.write_keeps _ _)

  unbind-Keeps : (d : String) → Keeps has_file (unbind_device_from_driver M d)
  unfolding unbind_device_from_driver
  unbind-Keeps d =
      bind-Keeps has_file (M.eval_symlinks _) _ (F.link_keeps _) (λ a. F.write_keeps _ _)

  bind_device-Keeps : (d x : String) → Keeps has_file (bind_device_to_driver M d x)
  unfolding bind_device_to_driver
  bind_device-Keeps d x =
      bind-Keeps has_file (is_device_bound_to_driver M d) _ (is_device_bound-Keeps d) (λ b.
        if-Keeps has_file b (unbind_device_from_driver M d >> override_and_bind M d x)
          (override_and_bind M d x)
          (bind-Keeps has_file (unbind_device_from_driver M d) _ (unbind-Keeps d)
            (λ a. override_and_bind-Keeps d x))
          (override_and_bind-Keeps d x))

  write_vfs-Keeps : (d : String) (n : ℕ) → Keeps has_file (write_vfs M d n)
  unfolding write_vfs
  write_vfs-Keeps d n =
      handle-Keeps has_file (M.write_file _ _) _ _ (F.write_keeps _ _) (λ a s. refl) (λ e s. refl)

  change_amount-Keeps : (d : String) (n : ℕ) → Keeps has_file (change_amount_of_vfs M d n)
  unfolding change_amount_of_vfs write_new_amount
  change_amount-Keeps d n s =
      let new : Keeps has_file (write_new_amount M d n) =
        if-Keeps has_file (ltb 0 n) (write_vfs M d n) (pure tt) (write_vfs-Keeps d n) (λ s. refl) in
      let both : Keeps has_file (write_vfs M d 0 >> write_new_amount M d n) =
        bind-Keeps has_file (write_vfs M d 0) _ (write_vfs-Keeps d 0) (λ a. new) in
      ground (arith, new s, both s)

  bind_vfs-Keeps : (x : String) (vfs : List String) → Keeps has_file (bind_vfs M x vfs)
  unfolding bind_vfs
  bind_vfs-Keeps x [] s = refl
  bind_vfs-Keeps x (vf ∷ vfs) s =
      bind-Keeps has_file (bind_device_to_driver M vf x) _ (bind_device-Keeps vf x)
        (λ a. bind_vfs-Keeps x vfs) s

  pub create_vfs-Keeps :
      (acc : SriovAccelerator) (pf : PhysicalFunctionConfig) → Keeps has_file (create_vfs M acc pf)
  unfolding create_vfs
  create_vfs-Keeps acc pf =
      let a : Exec M.State (Unit {0}) = load_module M pf.pf_driver in
      let b : Exec M.State (Unit {0}) = load_module M pf.vf_driver in
      let c : Exec M.State (Unit {0}) =
        if has_vfs acc.vfs then change_amount_of_vfs M pf.pci_address 0 else pure tt in
      let d : Exec M.State (Unit {0}) = bind_device_to_driver M pf.pci_address pf.pf_driver in
      let e : Exec M.State (Unit {0}) = change_amount_of_vfs M pf.pci_address pf.vf_amount in
      let f : Exec M.State (Unit {0}) = M.vf_list pf.pci_address >>= bind_vfs M pf.vf_driver in
      then-Keeps has_file (a >> b >> c >> d >> e) f
        (then-Keeps has_file (a >> b >> c >> d) e
          (then-Keeps has_file (a >> b >> c) d
            (then-Keeps has_file (a >> b) c
              (then-Keeps has_file a b (load_module-Keeps pf.pf_driver)
                (load_module-Keeps pf.vf_driver))
              (if-Keeps has_file (has_vfs acc.vfs) (change_amount_of_vfs M pf.pci_address 0)
                (pure tt) (change_amount-Keeps pf.pci_address 0) (λ s. refl)))
            (bind_device-Keeps pf.pci_address pf.pf_driver))
          (change_amount-Keeps pf.pci_address pf.vf_amount))
        (bind-Keeps has_file (M.vf_list pf.pci_address) (bind_vfs M pf.vf_driver)
          (F.vf_list_keeps pf.pci_address) (bind_vfs-Keeps pf.vf_driver))

  set_command-Keeps : (d text : String) → Keeps has_file (set_command M d text)
  unfolding set_command
  set_command-Keeps d text s = elim (Option-cases (parse_int (without_newline text))) [
    | inl e ↦ ground (arith, e)
    | inr (v, e) ↦
        let args : List String =
          "chroot"
          ∷ "/host/"
          ∷ "setpci"
          ∷ "-v"
          ∷ "-s"
          ∷ d
          ∷ ("COMMAND=0" <> format_hex (set_master_bus v))
          ∷ [] in
        let f : String → Exec M.State (Unit {0}) = λ _. pure tt in
        let kept : Keeps has_file (exec_cmd M args >>= f) =
          bind-Keeps has_file (exec_cmd M args) f (exec_cmd-Keeps args) (λ a t. refl) in
        ground (arith, e, kept s)
  ]

  set_from-Keeps :
      (d out : String) (values : List String) → Keeps has_file (set_from M d out values)
  unfolding set_from
  set_from-Keeps d out [] s = refl
  set_from-Keeps d out (x ∷ []) s = refl
  set_from-Keeps d out (x ∷ text ∷ []) s = set_command-Keeps d text s
  set_from-Keeps d out (x ∷ y ∷ z ∷ rest) s = refl

  enable_master_bus-Keeps : (d : String) → Keeps has_file (enable_master_bus M d)
  unfolding enable_master_bus
  enable_master_bus-Keeps d =
      bind-Keeps has_file (exec_cmd M _) _ (exec_cmd-Keeps _)
        (λ out. set_from-Keeps d out (split_equals out))

  pub enable_bus-Keeps : (pf : PhysicalFunctionConfig) → Keeps has_file (enable_bus_of_stub M pf)
  unfolding enable_bus_of_stub
  enable_bus-Keeps pf =
      if-Keeps has_file (is_pci_stub pf.pf_driver) (enable_master_bus M pf.pci_address) (pure tt)
        (enable_master_bus-Keeps pf.pci_address) (λ s. refl)

  pub run_pf_config-Keeps : (name file d : String) → Keeps has_file (run_pf_config M name file d)
  unfolding run_pf_config
  run_pf_config-Keeps name file d =
      if-Keeps has_file _ (exec_cmd M _ >>= λ _. pure tt) (raise _)
        (bind-Keeps has_file (exec_cmd M _) _ (exec_cmd-Keeps _) (λ a s. refl)) (λ s. refl)
