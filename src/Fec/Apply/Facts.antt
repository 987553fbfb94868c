-- ===== src/Fec/Apply/Facts.antt =====
-- What the sysfs says of a device, and which steps of a configuration leave it so.
use openshift_operator.Base.{
  ℕ, ◌≡◌, ◌≢◌, inl, inr, Bool, true, String, ◌<>◌, List, [], ◌∷◌, itoa, Option, none, some, All,
  ltb, failure, Exec, ok, pure, raise, handle, ◌>>=◌, Option-cases, Preserves, bind-Preserves,
  handle-Preserves, if-Preserves,
}
use openshift_operator.Api.Sriov.{
  N3000BbDevConfig, Acc100BbDevConfig, BbDevConfig, PhysicalFunctionConfig,
}
use openshift_operator.Fec.{Machine, IniSection, exec_cmd}
use openshift_operator.Fec.Devices.{
  ◌/path◌, sys_bus_pci_devices, sys_bus_pci_drivers, vf_num_file, load_module,
}
use openshift_operator.Fec.MasterBus.{
  set_from, set_command, enable_master_bus, split_equals, parse_int, without_newline, format_hex,
  set_master_bus, has_master_bus,
}
use openshift_operator.Fec.Queues.{
  max_queue_groups, total_queue_groups, generate_bb_dev_config_file,
  generate_acc100_bb_dev_config_file, generate_n3000_bb_dev_config_file, run_pf_config,
}
use openshift_operator.Fec.Apply.{is_pci_stub, enable_bus_of_stub}

-- A fact about a device: it is bound to a driver, or it has an amount of virtual functions.
pub data Fact : Type 0 where
  bound : String → String → Fact
  amount : String → ℕ → Fact

unfoldable pub subject : Fact → String
subject (bound d x) = d
subject (amount d n) = d

unfoldable pub Holds : (M : Machine) → (M.State → String → Option String) → Fact → M.State → Type 0
Holds M driver_of (bound d x) s = driver_of s d ≡ some x
Holds M driver_of (amount d n) s = M.vf_configured d s ≡ n

-- The sysfs, of the devices and the drivers that there are. A write to the `bind` file of a driver that
-- returns no error has bound the device, and one to `sriov_numvfs` has set the amount. A write that
-- binds or unbinds a device changes no other device; one that sets an amount changes no device but
-- this one and its virtual functions, and not the driver of this one. `driver_override`, commands,
-- files and reads change neither a driver nor an amount. A virtual function has a parent.
pub record HasSysfs (M : Machine) : Type 0 where
  pub driver_of : M.State → String → Option String
  pub device : String → Bool
  pub loadable : String → Bool
  pub parent : String → Option String
  pub bind_ok :
      (d x : String) (s : M.State)
      → device d ≡ true
      → loadable x ≡ true
      → (M.write_file (sys_bus_pci_drivers /path x /path "bind") d s).0 ≡ ok tt
      → driver_of (M.write_file (sys_bus_pci_drivers /path x /path "bind") d s).1 d ≡ some x
  pub amount_ok :
      (d : String) (n : ℕ) (s : M.State)
      → device d ≡ true
      → let r = M.write_file (sys_bus_pci_devices /path d /path vf_num_file) (itoa n) s in
        r.0 ≡ ok tt → M.vf_configured d r.1 ≡ n
  pub listed :
      (d : String) (s : M.State) (vs : List String)
      → (M.vf_list d s).0 ≡ ok vs
      → All (λ v. (device v ≡ true) × (parent v ≡ some d)) vs
  pub bind_leaves :
      (d x : String) (f : Fact)
      → device d ≡ true
      → loadable x ≡ true
      → subject f ≢ d
      → Preserves (Holds M driver_of f) (M.write_file (sys_bus_pci_drivers /path x /path "bind") d)
  pub unbind_leaves :
      (d folder : String) (f : Fact)
      → device d ≡ true
      → subject f ≢ d
      → Preserves (Holds M driver_of f) (M.write_file (folder /path "unbind") d)
  pub amount_leaves :
      (d : String) (n : ℕ) (f : Fact)
      → device d ≡ true
      → subject f ≢ d
      → parent (subject f) ≢ some d
      → Preserves
          (Holds M driver_of f)
          (M.write_file (sys_bus_pci_devices /path d /path vf_num_file) (itoa n))
  pub driver_stays :
      (d x : String) (n : ℕ)
      → device d ≡ true
      → Preserves
          (Holds M driver_of (bound d x))
          (M.write_file (sys_bus_pci_devices /path d /path vf_num_file) (itoa n))
  pub override_leaves :
      (d x : String) (f : Fact)
      → device d ≡ true
      → loadable x ≡ true
      → Preserves
          (Holds M driver_of f)
          (M.write_file (sys_bus_pci_devices /path d /path "driver_override") x)
  pub output_leaves :
      (cmd : String) (args : List String) (f : Fact)
      → Preserves (Holds M driver_of f) (M.output cmd args)
  pub stat_leaves : (p : String) (f : Fact) → Preserves (Holds M driver_of f) (M.stat p)
  pub link_leaves : (p : String) (f : Fact) → Preserves (Holds M driver_of f) (M.eval_symlinks p)
  pub vf_list_leaves : (d : String) (f : Fact) → Preserves (Holds M driver_of f) (M.vf_list d)
  pub save_leaves :
      (content : List IniSection) (p : String) (f : Fact)
      → Preserves (Holds M driver_of f) (M.save_to content p)
  pub remove_leaves : (p : String) (f : Fact) → Preserves (Holds M driver_of f) (M.remove p)

module _ (M : Machine) (H : HasSysfs M) where
  open H use {driver_of, device, loadable, parent}

  abbrev pub Says : Fact → M.State → Type 0
  Says = Holds M driver_of

  -- Steps that change no device.
  exec_cmd-Preserves : (f : Fact) (args : List String) → Preserves (Says f) (exec_cmd M args)
  unfolding exec_cmd
  exec_cmd-Preserves f [] s h = h
  exec_cmd-Preserves f (cmd ∷ args) s h =
      handle-Preserves (Says f) (M.output cmd args) pure raise (H.output_leaves cmd args f)
        (λ a t g. g) (λ e t g. g) s h

  pub load_module-Preserves : (f : Fact) (name : String) → Preserves (Says f) (load_module M name)
  unfolding load_module
  load_module-Preserves f name =
      bind-Preserves (Says f) (exec_cmd M _) _ (exec_cmd-Preserves f _) (λ a s h. h)

  set_command-Preserves : (f : Fact) (d text : String) → Preserves (Says f) (set_command M d text)
  unfolding set_command
  set_command-Preserves f d text s h = elim (Option-cases (parse_int (without_newline text))) [
    | inl e ↦ rw (set_command, e) h
    | inr (v, e) ↦
        let args : List String =
          "chroot"
          ∷ "/host/"
          ∷ "setpci"
          ∷ "-v"
          ∷ "-s"
          ∷ d
          ∷ ("COMMAND=0" <> format_hex (set_master_bus v))
          ∷ [] in
        rw (set_command, e)
          (if-Preserves (Says f) (has_master_bus v) (pure tt) (exec_cmd M args >>= λ _. pure tt)
            (λ t g. g)
            (bind-Preserves (Says f) (exec_cmd M args) (λ _. pure tt) (exec_cmd-Preserves f args)
              (λ a t g. g))
            s h)
  ]

  set_from-Preserves :
      (f : Fact) (d out : String) (values : List String)
      → Preserves (Says f) (set_from M d out values)
  unfolding set_from
  set_from-Preserves f d out [] s h = h
  set_from-Preserves f d out (x ∷ []) s h = h
  set_from-Preserves f d out (x ∷ text ∷ []) s h = set_command-Preserves f d text s h
  set_from-Preserves f d out (x ∷ y ∷ z ∷ rest) s h = h

  enable_master_bus-Preserves : (f : Fact) (d : String) → Preserves (Says f) (enable_master_bus M d)
  unfolding enable_master_bus
  enable_master_bus-Preserves f d =
      bind-Preserves (Says f) (exec_cmd M _) _ (exec_cmd-Preserves f _)
        (λ out. set_from-Preserves f d out (split_equals out))

  pub enable_bus-Preserves :
      (f : Fact) (pf : PhysicalFunctionConfig) → Preserves (Says f) (enable_bus_of_stub M pf)
  unfolding enable_bus_of_stub
  enable_bus-Preserves f pf =
      if-Preserves (Says f) (is_pci_stub pf.pf_driver) (enable_master_bus M pf.pci_address)
        (pure tt) (enable_master_bus-Preserves f pf.pci_address) (λ s h. h)

  pub run_pf_config-Preserves :
      (f : Fact) (name file d : String) → Preserves (Says f) (run_pf_config M name file d)
  unfolding run_pf_config
  run_pf_config-Preserves f name file d =
      if-Preserves (Says f) _ (exec_cmd M _ >>= λ _. pure tt) (raise _)
        (bind-Preserves (Says f) (exec_cmd M _) _ (exec_cmd-Preserves f _) (λ a s h. h)) (λ s h. h)

  save-Preserves :
      (f : Fact) (content : List IniSection) (file text : String)
      → let save : Exec M.State (Unit {0}) =
          handle (M.save_to content file) (λ _. pure tt) (λ _. raise (failure text)) in
        Preserves (Says f) save
  save-Preserves f content file text =
      handle-Preserves (Says f) (M.save_to content file) (λ _. pure tt) (λ _. raise (failure text))
        (H.save_leaves content file f) (λ u s h. h) (λ e s h. h)

  generate_n3000-Preserves :
      (f : Fact) (o : Option N3000BbDevConfig) (file : String)
      → Preserves (Says f) (generate_n3000_bb_dev_config_file M o file)
  unfolding generate_n3000_bb_dev_config_file
  generate_n3000-Preserves f none file = λ s h. h
  generate_n3000-Preserves f (some nc) file = save-Preserves f _ file _

  generate_acc100-Preserves :
      (f : Fact) (o : Option Acc100BbDevConfig) (file : String)
      → Preserves (Says f) (generate_acc100_bb_dev_config_file M o file)
  unfolding generate_acc100_bb_dev_config_file
  generate_acc100-Preserves f none file = λ s h. h
  generate_acc100-Preserves f (some nc) file =
      if-Preserves (Says f) (ltb max_queue_groups (total_queue_groups nc)) (raise _) _ (λ s h. h)
        (save-Preserves f _ file _)

  generate_parts-Preserves :
      (f : Fact) (n : Option N3000BbDevConfig) (o : Option Acc100BbDevConfig) (file : String)
      → Preserves (Says f) (generate_bb_dev_config_file M (record { n3000 = n; acc100 = o }) file)
  unfolding generate_bb_dev_config_file
  generate_parts-Preserves f n (some nc) file =
      handle-Preserves (Says f) (generate_acc100_bb_dev_config_file M (some nc) file) pure _
        (generate_acc100-Preserves f (some nc) file) (λ u s h. h) (λ e s h. h)
  generate_parts-Preserves f (some nc) none file =
      handle-Preserves (Says f) (generate_n3000_bb_dev_config_file M (some nc) file) pure _
        (generate_n3000-Preserves f (some nc) file) (λ u s h. h) (λ e s h. h)
  generate_parts-Preserves f none none file = λ s h. h

  pub generate-Preserves :
      (f : Fact) (b : BbDevConfig) (file : String)
      → Preserves (Says f) (generate_bb_dev_config_file M b file)
  generate-Preserves f b file = generate_parts-Preserves f b.n3000 b.acc100 file
