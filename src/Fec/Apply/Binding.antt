-- ===== src/Fec/Apply/Binding.antt =====
-- The steps that bind a device or change an amount, and the facts about other devices.
use openshift_operator.Base.{
  ℕ, ◌≡◌, ◌≢◌, inl, inr, refl, ap, ◌∙◌, true, false, String, List, [], ◌∷◌, some, All, is_not_exist,
  ltb, eqb, Bool-cases, Exec, Result, ok, err, pure, raise, ◌>>=◌, ◌>>◌, if◌then◌else◌, Preserves,
  bind-Preserves, then-Preserves, handle-Preserves, if-Preserves,
}
use openshift_operator.Api.Sriov.{SriovAccelerator, PhysicalFunctionConfig}
use openshift_operator.Fec.{Machine}
use openshift_operator.Fec.Devices.{
  load_module, is_device_bound_to_driver, unbind_device_from_driver, override_and_bind,
  bind_device_to_driver, write_vfs, write_new_amount, change_amount_of_vfs,
}
use openshift_operator.Fec.Apply.{has_vfs, bind_vfs, create_vfs}
use openshift_operator.Fec.Apply.Facts.{Fact, bound, subject, HasSysfs, Says, load_module-Preserves}

module _ (M : Machine) (H : HasSysfs M) where
  open H use {driver_of, device, loadable, parent}

  -- Steps that bind a device.
  is_device_bound-Preserves :
      (f : Fact) (d : String) → Preserves (Says M H f) (is_device_bound_to_driver M d)
  unfolding is_device_bound_to_driver
  is_device_bound-Preserves f d =
      handle-Preserves (Says M H f) (M.stat _) _ _ (H.stat_leaves _ f) (λ a s h. h)
        (λ e.
          if-Preserves (Says M H f) (is_not_exist e) (pure false) (raise e) (λ s h. h) (λ s h. h))

  pub bind_device-Preserves :
      (f : Fact) (d x : String)
      → device d ≡ true
      → loadable x ≡ true
      → subject f ≢ d
      → Preserves (Says M H f) (bind_device_to_driver M d x)
  unfolding bind_device_to_driver unbind_device_from_driver override_and_bind
  bind_device-Preserves f d x known there other =
      let bind : Exec M.State (Unit {0}) = override_and_bind M d x in
      let binds : Preserves (Says M H f) bind =
        then-Preserves (Says M H f) (M.write_file _ _) (M.write_file _ _)
          (H.override_leaves d x f known there) (H.bind_leaves d x f known there other) in
      bind-Preserves (Says M H f) (is_device_bound_to_driver M d) _ (is_device_bound-Preserves f d)
        (λ b.
          if-Preserves (Says M H f) b (unbind_device_from_driver M d >> bind) bind
            (then-Preserves (Says M H f) (unbind_device_from_driver M d) bind
              (bind-Preserves (Says M H f) (M.eval_symlinks _) _ (H.link_leaves _ f)
                (λ folder. H.unbind_leaves d folder f known other))
              binds)
            binds)

  pub bind_vfs-Preserves :
      (f : Fact) (x : String) (vs : List String)
      → loadable x ≡ true
      → All (λ v. (device v ≡ true) × (subject f ≢ v)) vs
      → Preserves (Says M H f) (bind_vfs M x vs)
  unfolding bind_vfs
  bind_vfs-Preserves f x [] there h = λ s g. g
  bind_vfs-Preserves f x (v ∷ vs) there ((known, other), h) =
      then-Preserves (Says M H f) (bind_device_to_driver M v x) (bind_vfs M x vs)
        (bind_device-Preserves f v x known there other) (bind_vfs-Preserves f x vs there h)

  -- Steps that change an amount, for facts about other devices and their virtual functions.
  write_vfs-Preserves :
      (f : Fact) (d : String) (n : ℕ)
      → device d ≡ true
      → subject f ≢ d
      → parent (subject f) ≢ some d
      → Preserves (Says M H f) (write_vfs M d n)
  unfolding write_vfs
  write_vfs-Preserves f d n known other apart =
      handle-Preserves (Says M H f) (M.write_file _ _) _ _ (H.amount_leaves d n f known other apart)
        (λ a s h. h) (λ e s h. h)

  -- The change of an amount preserves what its writes preserve.
  changes_preserve :
      (P : M.State → Type 0) (d : String) (n : ℕ)
      → ((k : ℕ) → Preserves P (write_vfs M d k))
      → Preserves P (change_amount_of_vfs M d n)
  unfolding change_amount_of_vfs write_new_amount
  changes_preserve P d n writes s h = elim (Bool-cases (eqb (M.vf_configured d s) n)) [
    | inl e ↦ rw e h
    | inr e ↦ elim (Bool-cases (ltb 0 (M.vf_configured d s))) [
      | inl g ↦
          rw (e, g) (then-Preserves P (write_vfs M d 0) (write_new_amount M d n) (writes 0) new s h)
      | inr g ↦ rw (e, g) (new s h)
    ]
  ]
    where
      new : Preserves P (write_new_amount M d n)
      new = if-Preserves P (ltb 0 n) (write_vfs M d n) (pure tt) (writes n) (λ t k. k)

  pub change_amount-Preserves :
      (f : Fact) (d : String) (n : ℕ)
      → device d ≡ true
      → subject f ≢ d
      → parent (subject f) ≢ some d
      → Preserves (Says M H f) (change_amount_of_vfs M d n)
  change_amount-Preserves f d n known other apart =
      changes_preserve (Says M H f) d n (λ k. write_vfs-Preserves f d k known other apart)

  write_vfs_driver-Preserves :
      (d x : String) (n : ℕ) → device d ≡ true → Preserves (Says M H (bound d x)) (write_vfs M d n)
  unfolding write_vfs
  write_vfs_driver-Preserves d x n known =
      handle-Preserves (Says M H (bound d x)) (M.write_file _ _) _ _ (H.driver_stays d x n known)
        (λ a s h. h) (λ e s h. h)

  -- The change of an amount leaves the driver of the device.
  pub change_amount_driver-Preserves :
      (d x : String) (n : ℕ)
      → device d ≡ true
      → Preserves (Says M H (bound d x)) (change_amount_of_vfs M d n)
  change_amount_driver-Preserves d x n known =
      changes_preserve (Says M H (bound d x)) d n (λ k. write_vfs_driver-Preserves d x k known)

  -- The virtual functions of another device are not the subject of a fact.
  pub listed_apart :
      (f : Fact) (d : String) (vs : List String)
      → parent (subject f) ≢ some d
      → All (λ v. (device v ≡ true) × (parent v ≡ some d)) vs
      → All (λ v. (device v ≡ true) × (subject f ≢ v)) vs
  listed_apart f d [] apart h = tt
  listed_apart f d (v ∷ vs) apart ((known, owned), h) =
      ((known, λ same. apart (ap parent same ∙ owned)), listed_apart f d vs apart h)

  pub bind_listed-Preserves :
      (f : Fact) (d x : String)
      → loadable x ≡ true
      → parent (subject f) ≢ some d
      → Preserves (Says M H f) (M.vf_list d >>= bind_vfs M x)
  bind_listed-Preserves f d x there apart s h = by_result (M.vf_list d s).0 refl
    where
      t : M.State
      t = (M.vf_list d s).1

      kept : Says M H f t
      kept = H.vf_list_leaves d f s h

      by_result :
          (r : Result (List String))
          → (M.vf_list d s).0 ≡ r
          → Says M H f ((M.vf_list d >>= bind_vfs M x) s).1
      by_result (ok vs) e =
          rw e
            (bind_vfs-Preserves f x vs there (listed_apart f d vs apart (H.listed d s vs e)) t kept)
      by_result (err y) e = rw e kept

  -- The creation of the virtual functions of a device leaves the facts about other devices and their
  -- virtual functions.
  pub create_vfs-Preserves :
      (f : Fact) (acc : SriovAccelerator) (pf : PhysicalFunctionConfig)
      → device pf.pci_address ≡ true
      → loadable pf.pf_driver ≡ true
      → loadable pf.vf_driver ≡ true
      → subject f ≢ pf.pci_address
      → parent (subject f) ≢ some pf.pci_address
      → Preserves (Says M H f) (create_vfs M acc pf)
  unfolding create_vfs
  create_vfs-Preserves f acc pf known pf_there vf_there other apart =
      let d : String = pf.pci_address in
      let a : Exec M.State (Unit {0}) = load_module M pf.pf_driver in
      let b : Exec M.State (Unit {0}) = load_module M pf.vf_driver in
      let c : Exec M.State (Unit {0}) =
        if has_vfs acc.vfs then change_amount_of_vfs M d 0 else pure tt in
      let p : Exec M.State (Unit {0}) = bind_device_to_driver M d pf.pf_driver in
      let e : Exec M.State (Unit {0}) = change_amount_of_vfs M d pf.vf_amount in
      let v : Exec M.State (Unit {0}) = M.vf_list d >>= bind_vfs M pf.vf_driver in
      then-Preserves (Says M H f) (a >> b >> c >> p >> e) v
        (then-Preserves (Says M H f) (a >> b >> c >> p) e
          (then-Preserves (Says M H f) (a >> b >> c) p
            (then-Preserves (Says M H f) (a >> b) c
              (then-Preserves (Says M H f) a b (load_module-Preserves M H f pf.pf_driver)
                (load_module-Preserves M H f pf.vf_driver))
              (if-Preserves (Says M H f) (has_vfs acc.vfs) (change_amount_of_vfs M d 0) (pure tt)
                (change_amount-Preserves f d 0 known other apart) (λ s h. h)))
            (bind_device-Preserves f d pf.pf_driver known pf_there other))
          (change_amount-Preserves f d pf.vf_amount known other apart))
        (bind_listed-Preserves f d pf.vf_driver vf_there apart)
