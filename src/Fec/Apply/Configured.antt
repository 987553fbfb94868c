-- ===== src/Fec/Apply/Configured.antt =====
-- The drivers and the amounts of virtual functions after the virtual functions of a device were created.
use openshift_operator.Base.{
  ℕ, ◌≡◌, ◌≢◌, inl, inr, sym, ap, ◌∙◌, arith, true, String, List, [], ◌∷◌, ◌==◌, eq_iff, none, some,
  All, ltb, eqb, Bool-cases, Exec, Result, ok, pure, ◌>>=◌, ◌>>◌, bind-eq-ok, then_parts,
  bind_parts, Ensures, bind-Ensures, if-Ensures, if◌then◌else◌,
}
use openshift_operator.Api.Sriov.{SriovAccelerator, PhysicalFunctionConfig}
use openshift_operator.Fec.{Machine}
use openshift_operator.Fec.Devices.{
  load_module, is_device_bound_to_driver, unbind_device_from_driver, override_and_bind,
  bind_device_to_driver, write_vfs, write_new_amount, change_amount_of_vfs,
}
use openshift_operator.Fec.Apply.{has_vfs, bind_vfs, create_vfs}
use openshift_operator.Fec.Apply.Facts.{bound, amount, subject, Holds, HasSysfs}
use openshift_operator.Fec.Apply.Binding.{
  listed_apart, bind_device-Preserves, bind_vfs-Preserves, change_amount_driver-Preserves,
}

module _ (M : Machine) (H : HasSysfs M) where
  open H use {driver_of, device, loadable, parent}

  -- A device that was bound without an error has the driver.
  bind_device-Ensures :
      (d x : String)
      → device d ≡ true
      → loadable x ≡ true
      → Ensures (λ (u : Unit {0}) s. driver_of s d ≡ some x) (bind_device_to_driver M d x)
  unfolding bind_device_to_driver override_and_bind
  bind_device-Ensures d x known there =
      let Bound : Unit {0} → M.State → Type 0 = λ u s. driver_of s d ≡ some x in
      let bind : Exec M.State (Unit {0}) = override_and_bind M d x in
      let binds : Ensures Bound bind =
        bind-Ensures Bound (M.write_file _ _) _ (λ u s a e. H.bind_ok d x s known there e) in
      bind-Ensures Bound (is_device_bound_to_driver M d) _ (λ b.
        if-Ensures Bound b (unbind_device_from_driver M d >> bind) bind
          (λ _. bind-Ensures Bound (unbind_device_from_driver M d) _ (λ u. binds)) (λ _. binds))

  write_vfs-Ensures :
      (d : String) (n : ℕ)
      → device d ≡ true
      → Ensures (λ (u : Unit {0}) s. M.vf_configured d s ≡ n) (write_vfs M d n)
  unfolding write_vfs
  write_vfs-Ensures d n known s u e = ground (arith, e, H.amount_ok d n s known)

  new_amount_ok :
      (d : String) (n : ℕ) (s : M.State)
      → device d ≡ true
      → M.vf_configured d s ≡ 0
      → (write_new_amount M d n s).0 ≡ ok tt
      → M.vf_configured d (write_new_amount M d n s).1 ≡ n
  unfolding write_new_amount
  new_amount_ok d n s known zero h = elim (Bool-cases (ltb 0 n)) [
    | inl e ↦ rw e (write_vfs-Ensures d n known s tt (ground (arith, e, h)))
    | inr e ↦ ground (arith, e, zero)
  ]

  -- An amount that was changed without an error is configured.
  amount_changed :
      (d : String) (n : ℕ) (s : M.State)
      → device d ≡ true
      → (change_amount_of_vfs M d n s).0 ≡ ok tt
      → M.vf_configured d (change_amount_of_vfs M d n s).1 ≡ n
  unfolding change_amount_of_vfs
  amount_changed d n s known h = elim (Bool-cases (eqb (M.vf_configured d s) n)) [
    | inl e ↦ ground (arith, e)
    | inr e ↦ elim (Bool-cases (ltb 0 (M.vf_configured d s))) [
      | inl g ↦
          let both : ((write_vfs M d 0 >> write_new_amount M d n) s).0 ≡ ok tt =
            ground (arith, e, g, h) in
          let (u, zeroed, at) = bind-eq-ok (write_vfs M d 0) (λ _. write_new_amount M d n) s both in
          let t : M.State = (write_vfs M d 0 s).1 in
          let written : (write_new_amount M d n t).0 ≡ ok tt =
            sym (ap (λ (r : Result (Unit {0}) × M.State). r.0) at) ∙ both in
          rw (e, g)
            (ap (λ (r : Result (Unit {0}) × M.State). M.vf_configured d r.1) at
              ∙ new_amount_ok d n t known (write_vfs-Ensures d 0 known s u zeroed) written)
      | inr g ↦ rw (e, g) (new_amount_ok d n s known (ground (arith, g)) (ground (arith, e, g, h)))
    ]
  ]

  -- A device that has a driver keeps it while others, or itself, are bound to that driver without an
  -- error.
  bind_vfs_stays :
      (v x : String) (vs : List String) (s : M.State)
      → device v ≡ true
      → loadable x ≡ true
      → All (λ w. device w ≡ true) vs
      → driver_of s v ≡ some x
      → (bind_vfs M x vs s).0 ≡ ok tt
      → driver_of (bind_vfs M x vs s).1 v ≡ some x
  unfolding bind_vfs subject Holds
  bind_vfs_stays v x [] s known there all has h = has
  bind_vfs_stays v x (w ∷ vs) s known there (w_known, all) has h =
      let bind : Exec M.State (Unit {0}) = bind_device_to_driver M w x in
      let ((u, e), rest, after) = then_parts bind (bind_vfs M x vs) s h in
      ap (λ (t : M.State). driver_of t v) after
      ∙ bind_vfs_stays v x vs (bind s).1 known there all
          (elim (Bool-cases (v == w)) [
            | inl same ↦
                ap (driver_of (bind s).1) (ground (arith, same, eq_iff v w))
                ∙ bind_device-Ensures w x w_known there s u e
            | inr differs ↦
                bind_device-Preserves M H (bound v x) w x w_known there
                  (λ eq. absurd (ground (arith, differs, eq, eq_iff v w))) s has
          ])
          rest

  bind_vfs_ok :
      (x : String) (vs : List String) (s : M.State)
      → loadable x ≡ true
      → All (λ w. device w ≡ true) vs
      → (bind_vfs M x vs s).0 ≡ ok tt
      → All (λ v. driver_of (bind_vfs M x vs s).1 v ≡ some x) vs
  unfolding bind_vfs
  bind_vfs_ok x [] s there all h = tt
  bind_vfs_ok x (v ∷ vs) s there (known, all) h =
      let bind : Exec M.State (Unit {0}) = bind_device_to_driver M v x in
      let ((u, e), rest, after) = then_parts bind (bind_vfs M x vs) s h in
      let t : M.State = (bind s).1 in
      (
        ap (λ (w : M.State). driver_of w v) after
            ∙ bind_vfs_stays v x vs t known there all (bind_device-Ensures v x known there s u e)
                rest,
        at_end x vs (bind_vfs M x (v ∷ vs) s).1 (bind_vfs M x vs t).1 after
            (bind_vfs_ok x vs t there all rest),
      )
    where
      at_end :
          (x : String) (vs : List String) (a b : M.State)
          → a ≡ b
          → All (λ v. driver_of b v ≡ some x) vs
          → All (λ v. driver_of a v ≡ some x) vs
      at_end x vs a b e h = rw e h

  -- A physical function as its configuration wants it: it has the driver and the amount of virtual
  -- functions, and the virtual functions that were listed once this amount was configured have their
  -- driver.
  unfoldable pub IsConfigured : M.State → PhysicalFunctionConfig → Type 0
  IsConfigured s pf =
      (driver_of s pf.pci_address ≡ some pf.pf_driver)
      × (M.vf_configured pf.pci_address s ≡ pf.vf_amount)
      × (t : M.State) × (vs : List String) × ((M.vf_list pf.pci_address t).0 ≡ ok vs)
      × (M.vf_configured pf.pci_address t ≡ pf.vf_amount)
      × All (λ v. (parent v ≡ some pf.pci_address) × (driver_of s v ≡ some pf.vf_driver)) vs

  -- A physical function of the node, with drivers that there are.
  unfoldable pub IsKnown : PhysicalFunctionConfig → Type 0
  IsKnown pf =
      (device pf.pci_address ≡ true)
      × (parent pf.pci_address ≡ none)
      × (loadable pf.pf_driver ≡ true)
      × (loadable pf.vf_driver ≡ true)

  zip_owned :
      (d x : String) (vs : List String) (s : M.State)
      → All (λ v. (device v ≡ true) × (parent v ≡ some d)) vs
      → All (λ v. driver_of s v ≡ some x) vs
      → All (λ v. (parent v ≡ some d) × (driver_of s v ≡ some x)) vs
  zip_owned d x [] s h g = tt
  zip_owned d x (v ∷ vs) s ((known, owned), h) (has, g) = ((owned, has), zip_owned d x vs s h g)

  devices_of :
      (d : String) (vs : List String)
      → All (λ v. (device v ≡ true) × (parent v ≡ some d)) vs
      → All (λ v. device v ≡ true) vs
  devices_of d [] h = tt
  devices_of d (v ∷ vs) ((known, owned), h) = (known, devices_of d vs h)

  -- The virtual functions of a known device were created without an error.
  pub create_vfs-IsConfigured :
      (acc : SriovAccelerator) (pf : PhysicalFunctionConfig) (s : M.State)
      → IsKnown pf
      → (create_vfs M acc pf s).0 ≡ ok tt
      → IsConfigured (create_vfs M acc pf s).1 pf
  unfolding create_vfs IsConfigured IsKnown subject Holds
  create_vfs-IsConfigured acc pf s (known, top, pf_there, vf_there) h =
      let d : String = pf.pci_address in
      let first : Exec M.State (Unit {0}) =
        load_module M pf.pf_driver
        >> load_module M pf.vf_driver
        >> (if has_vfs acc.vfs then change_amount_of_vfs M d 0 else pure tt) in
      let bind : Exec M.State (Unit {0}) = bind_device_to_driver M d pf.pf_driver in
      let change : Exec M.State (Unit {0}) = change_amount_of_vfs M d pf.vf_amount in
      let list : Exec M.State (List String) = M.vf_list d in
      let ((u, e1), h1, at1) =
        then_parts (first >> bind >> change) (list >>= bind_vfs M pf.vf_driver) s h in
      let ((v, e2), h2, at2) = then_parts (first >> bind) change s e1 in
      let ((w, e3), h3, at3) = then_parts first bind s e2 in
      let b : M.State = ((first >> bind) s).1 in
      let t : M.State = ((first >> bind >> change) s).1 in
      let bound_b : driver_of b d ≡ some pf.pf_driver =
        ap (λ (y : M.State). driver_of y d) at3
        ∙ bind_device-Ensures d pf.pf_driver known pf_there (first s).1 tt h3 in
      let bound_t : driver_of t d ≡ some pf.pf_driver =
        ap (λ (y : M.State). driver_of y d) at2
        ∙ change_amount_driver-Preserves M H d pf.pf_driver pf.vf_amount known b bound_b in
      let amount_t : M.vf_configured d t ≡ pf.vf_amount =
        ap (M.vf_configured d) at2 ∙ amount_changed d pf.vf_amount b known h2 in
      let (vs, listed, h4, at4) = bind_parts list (bind_vfs M pf.vf_driver) t h1 in
      let owned : All (λ v. (device v ≡ true) × (parent v ≡ some d)) vs = H.listed d t vs listed in
      let apart : parent d ≢ some d = λ e. absurd (ground (arith, top, e)) in
      let others : All (λ v. (device v ≡ true) × (d ≢ v)) vs =
        listed_apart M H (bound d pf.pf_driver) d vs apart owned in
      let c : M.State = (list t).1 in
      moved pf (create_vfs M acc pf s).1 (bind_vfs M pf.vf_driver vs c).1 (at1 ∙ at4) (
        bind_vfs-Preserves M H (bound d pf.pf_driver) pf.vf_driver vs vf_there others c
            (H.vf_list_leaves d (bound d pf.pf_driver) t bound_t),
        bind_vfs-Preserves M H (amount d pf.vf_amount) pf.vf_driver vs vf_there others c
            (H.vf_list_leaves d (amount d pf.vf_amount) t amount_t),
        t,
        vs,
        listed,
        amount_t,
        zip_owned d pf.vf_driver vs (bind_vfs M pf.vf_driver vs c).1 owned
            (bind_vfs_ok pf.vf_driver vs c vf_there (devices_of d vs owned) h4),
      )
    where
      moved :
          (pf : PhysicalFunctionConfig) (a z : M.State)
          → a ≡ z
          → IsConfigured z pf
          → IsConfigured a pf
      moved pf a z e g = rw e g
