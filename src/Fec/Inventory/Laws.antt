-- ===== src/Fec/Inventory/Laws.antt =====
-- The theorems about the inventory.
use openshift_operator.Base.{
  ◌≡◌, refl, Bool, false, ◌==◌, is_some, ◌&&◌, ◌||◌, String, List, [], ◌∷◌, map, arith, none, some,
  ok, err, Result, if◌then◌else◌, handle, pure, Bool-cases, inl, inr,
}
use openshift_operator.Api.Sriov.{Vf, SriovAccelerator, NodeInventory}
use openshift_operator.Fec.{Machine, PciDevice}
use openshift_operator.Fec.Inventory.{
  AcceleratorDiscoveryConfig, lookup, is_supported, driver_or_empty, vf_info, vf_infos,
  accelerator_of, accelerators, get_sriov_inventory,
}

-- The reads leave the node alone.
pub record ReadsOnly (M : Machine) : Type 0 where
  pub devices_keep : (s : M.State) → (M.list_devices s).1 ≡ s
  pub driver_keep : (a : String) (s : M.State) → (M.driver_name a s).1 ≡ s
  pub vfs_keep : (a : String) (s : M.State) → (M.vf_list a s).1 ≡ s

-- Whether a map has a key.
unfoldable pub has_key : List (String × String) → String → Bool
has_key [] k = false
has_key ((j, v) ∷ m) k = j == k || has_key m k

-- Whether the configuration supports a device: it has the vendor and the product, and the class and
-- the subclass are its own.
unfoldable pub supports : AcceleratorDiscoveryConfig → PciDevice → Bool
supports cfg d =
    has_key cfg.vendor_id d.vendor_id
    && (d.class_id == cfg.class
        && (d.subclass_id == cfg.sub_class && has_key cfg.devices d.product_id))

lookup-eq-has_key : (k : String) (m : List (String × String)) → is_some (lookup k m) ≡ has_key m k
unfolding lookup has_key
lookup-eq-has_key k [] = refl
lookup-eq-has_key k ((j, v) ∷ m) = ground (arith, lookup-eq-has_key k m)

pub is_supported-eq-supports :
    (cfg : AcceleratorDiscoveryConfig) (d : PciDevice) → is_supported cfg d ≡ supports cfg d
unfolding is_supported supports
is_supported-eq-supports cfg d =
    ground (
      arith,
      lookup-eq-has_key d.vendor_id cfg.vendor_id,
      lookup-eq-has_key d.product_id cfg.devices,
    )

-- The addresses of the devices that the configuration supports and that can have virtual functions.
unfoldable pub supported_addresses :
    (M : Machine) → AcceleratorDiscoveryConfig → M.State → List PciDevice → List String
supported_addresses M cfg s [] = []
supported_addresses M cfg s (d ∷ ds) =
    let rest = supported_addresses M cfg s ds in
    if supports cfg d && M.is_sriov_pf d.address s then d.address ∷ rest else rest

abbrev pub addresses : List SriovAccelerator → List String
addresses = map (λ (a : SriovAccelerator). a.pci_address)

module _ (M : Machine) (R : ReadsOnly M) where
  driver_or_empty_ok :
      (a : String) (s : M.State) → (x : String) × (driver_or_empty M a s ≡ (ok x, s))
  unfolding driver_or_empty
  driver_or_empty_ok a s = by_result (M.driver_name a s).0 refl
    where
      by_result :
          (r : Result String)
          → (M.driver_name a s).0 ≡ r
          → (x : String) × (driver_or_empty M a s ≡ (ok x, s))
      by_result (ok x) e = (x, ground (arith, R.driver_keep a s))
      by_result (err x) e = ("", ground (arith, R.driver_keep a s))

  vf_info_ok : (vf : String) (s : M.State) → (info : Vf) × (vf_info M vf s ≡ (ok info, s))
  unfolding vf_info
  vf_info_ok vf s =
      let (x, e) = driver_or_empty_ok vf s in
      (
        record {
          pci_address = vf;
          driver = x;
          device_id = elim (M.get_device vf s) [ none ↦ "" | some info ↦ info.product_id ];
        },
        rw (e, handle),
      )

  vf_infos_ok :
      (vfs : List String) (s : M.State) → (infos : List Vf) × (vf_infos M vfs s ≡ (ok infos, s))
  unfolding vf_infos
  vf_infos_ok [] s = ([], refl)
  vf_infos_ok (vf ∷ vfs) s =
      let (info, e) = vf_info_ok vf s in
      let (infos, e') = vf_infos_ok vfs s in (info ∷ infos, ground (arith, e, e'))

  listed_ok :
      (a : String) (s : M.State)
      → (vfs : List String) × (handle (M.vf_list a) pure (λ _. pure []) s ≡ (ok vfs, s))
  listed_ok a s = by_result (M.vf_list a s).0 refl
    where
      by_result :
          (r : Result (List String))
          → (M.vf_list a s).0 ≡ r
          → (vfs : List String) × (handle (M.vf_list a) pure (λ _. pure []) s ≡ (ok vfs, s))
      by_result (ok vfs) e = (vfs, ground (arith, R.vfs_keep a s))
      by_result (err x) e = ([], ground (arith, R.vfs_keep a s))

  accelerator_of_ok :
      (d : PciDevice) (s : M.State)
      → (a : SriovAccelerator) × (accelerator_of M d s ≡ (ok a, s)) × (a.pci_address ≡ d.address)
  unfolding accelerator_of
  accelerator_of_ok d s =
      let (x, e) = driver_or_empty_ok d.address s in
      let (vfs, e') = listed_ok d.address s in
      let (infos, e'') = vf_infos_ok vfs s in
      (
        record {
          vendor_id = d.vendor_id;
          device_id = d.product_id;
          pci_address = d.address;
          driver = x;
          max_vfs = M.vf_capacity d.address s;
          vfs = infos;
        },
        ground (arith, e, e', e''),
        refl,
      )

  accelerators_ok :
      (cfg : AcceleratorDiscoveryConfig) (ds : List PciDevice) (s : M.State)
      → (accs : List SriovAccelerator) × (accelerators M cfg ds s ≡ (ok accs, s))
        × (addresses accs ≡ supported_addresses M cfg s ds)
  unfolding accelerators supported_addresses
  accelerators_ok cfg [] s = ([], refl, refl)
  accelerators_ok cfg (d ∷ ds) s =
      let (acc, e, a) = accelerator_of_ok d s in
      let (accs, e', as') = accelerators_ok cfg ds s in
      let same = is_supported-eq-supports cfg d in
      elim (Bool-cases (is_supported cfg d && M.is_sriov_pf d.address s)) [
        | inl yes' ↦ (acc ∷ accs, ground (arith, e, e'), ground (arith, a, as', same))
        | inr no' ↦ (accs, ground (arith, e'), ground (arith, as', same))
      ]

  -- Where the PCI listing succeeds and is not empty, the inventory is obtained without an error,
  -- whatever drivers and virtual functions cannot be read, and it has, in the order of the listing,
  -- just the devices of a supported vendor, class, subclass and product that can have virtual
  -- functions.
  pub get_sriov_inventory_ok :
      (cfg : AcceleratorDiscoveryConfig) (d : PciDevice) (ds : List PciDevice) (s : M.State)
      → (M.list_devices s).0 ≡ ok (d ∷ ds)
      → (inv : NodeInventory) × (get_sriov_inventory M cfg s ≡ (ok inv, s))
        × (addresses inv.sriov_accelerators ≡ supported_addresses M cfg s (d ∷ ds))
  unfolding get_sriov_inventory
  get_sriov_inventory_ok cfg d ds s h =
      let (accs, e, a) = accelerators_ok cfg (d ∷ ds) s in
      (record { sriov_accelerators = accs }, ground (arith, R.devices_keep s, e), a)

  -- Whatever the inventory is, the node is left alone.
  pub get_sriov_inventory_keeps :
      (cfg : AcceleratorDiscoveryConfig) (s : M.State) → (get_sriov_inventory M cfg s).1 ≡ s
  unfolding get_sriov_inventory
  get_sriov_inventory_keeps cfg s = by_result (M.list_devices s).0 refl
    where
      by_result :
          (r : Result (List PciDevice))
          → (M.list_devices s).0 ≡ r
          → (get_sriov_inventory M cfg s).1 ≡ s
      by_result (ok []) e = ground (arith, R.devices_keep s)
      by_result (ok (d ∷ ds)) e =
          let (inv, eq, a) = get_sriov_inventory_ok cfg d ds s e in ground (arith, eq)
      by_result (err x) e = ground (arith, R.devices_keep s)
