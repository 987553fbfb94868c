-- ===== src/Labeler/Laws.antt =====
-- What the labels of the node are after the labeler has set one.
use openshift_operator.Base.{
  ◌≡◌, refl, arith, Bool, true, false, not, ◌||◌, String, List, [], ◌∷◌, ◌==◌, eq_iff, none, some,
  sym, ap, ◌∙◌, ◌<>◌, failure, message, Keeps, handle-Keeps, then-Keeps, bind-eq-ok, then-eq-ok,
  Result, ok, err, Exec, pure, raise, ◌>>=◌, ◌>>◌, Bool-cases, inl, inr, if◌then◌else◌,
}
use openshift_operator.Fec.{PciDevice}
use openshift_operator.Fec.Inventory.{AcceleratorDiscoveryConfig, lookup}
use openshift_operator.Fec.Inventory.Laws.{supports, is_supported-eq-supports}
use openshift_operator.Labeler.{
  Labels, World, config_file, delete_key, set_key, new_labels, set_node_label, get_pci_devices,
  any_supported, find_accelerator, accelerator_discovery,
}
use openshift_operator.Labeler.Config.{wrapping, load_discovery_config}

-- The API server: a Get shows the labels of a node, and an Update that returns no error sets them.
-- To set up a client changes no labels.
pub record HasNodes (W : World) : Type 0 where
  pub labels_of : W.State → String → Labels
  pub config_keeps :
      (s : W.State) (n : String) → labels_of (W.in_cluster_config s).1 n ≡ labels_of s n
  pub client_keeps : (s : W.State) (n : String) → labels_of (W.new_for_config s).1 n ≡ labels_of s n
  pub shows :
      (n : String) (s : W.State) (m : Labels) → (W.get_node n s).0 ≡ ok m → m ≡ labels_of s n
  pub sets :
      (n : String) (m : Labels) (s : W.State)
      → (W.update_node n m s).0 ≡ ok tt
      → labels_of (W.update_node n m s).1 n ≡ m

-- Whether one of the devices is supported.
unfoldable pub has_supported : AcceleratorDiscoveryConfig → List PciDevice → Bool
has_supported cfg [] = false
has_supported cfg (d ∷ ds) = supports cfg d || has_supported cfg ds

lookup-delete_key_same : (k : String) (m : Labels) → lookup k (delete_key k m) ≡ none
unfolding lookup delete_key
lookup-delete_key_same k [] = refl
lookup-delete_key_same k ((j, v) ∷ m) = ground (arith, lookup-delete_key_same k m)

lookup-delete_key_other :
    (k l : String) (m : Labels) → (l == k) ≡ false → lookup l (delete_key k m) ≡ lookup l m
unfolding lookup delete_key
lookup-delete_key_other k l [] h = refl
lookup-delete_key_other k l ((j, v) ∷ m) h =
    ground (arith, h, lookup-delete_key_other k l m h, eq_iff j k, eq_iff j l, eq_iff l k)

lookup-new_labels_same :
    (W : World) (k : String) (b : Bool) (m n : Labels)
    → new_labels W k b m ≡ ok n
    → lookup k n ≡ (if b then none else some "")
unfolding new_labels set_key lookup
lookup-new_labels_same W k true m n h = ground (arith, h, lookup-delete_key_same k m)
lookup-new_labels_same W k false [] n h = ground (arith, h)
lookup-new_labels_same W k false (l ∷ ls) n h = ground (arith, h, eq_iff k k)

lookup-new_labels_other :
    (W : World) (k l : String) (b : Bool) (m n : Labels)
    → (l == k) ≡ false
    → new_labels W k b m ≡ ok n
    → lookup l n ≡ lookup l m
unfolding new_labels set_key lookup
lookup-new_labels_other W k l true m n h g = ground (arith, g, lookup-delete_key_other k l m h)
lookup-new_labels_other W k l false [] n h g = ground (arith, g)
lookup-new_labels_other W k l false (x ∷ xs) n h g =
    ground (arith, g, lookup-delete_key_other k l (x ∷ xs) h, eq_iff k l, eq_iff l k)

module _ (W : World) where
  wrapping_result {ℓ} :
      {A : Type ℓ} (text : String) (m : Exec W.State A) (s : W.State) (a : A)
      → (wrapping text m s).0 ≡ ok a
      → ((m s).0 ≡ ok a) × ((wrapping text m s).1 ≡ (m s).1)
  unfolding wrapping
  wrapping_result {A} text m s a h = by_result (m s).0 refl
    where
      by_result :
          (r : Result A) → (m s).0 ≡ r → ((m s).0 ≡ ok a) × ((wrapping text m s).1 ≡ (m s).1)
      by_result (ok b) e = ground (arith, e, h)
      by_result (err x) e = absurd (ground (arith, e, h))

  wrapping-Keeps {ℓ} :
      {A : Type ℓ} {T : Type 0} (view : W.State → T) (text : String) (m : Exec W.State A)
      → Keeps view m
      → Keeps view (wrapping text m)
  unfolding wrapping
  wrapping-Keeps view text m h =
      handle-Keeps view m pure (λ e. raise (failure (text <> message e))) h (λ a s. refl)
        (λ e s. refl)

module _ (W : World) (N : HasNodes W) where
  open N use {labels_of}

  -- Where the label of a node is set or removed without an error, it is there, with an empty value,
  -- or it is not, and every other label of the node is as before.
  pub set_node_label_ok :
      (n k : String) (b : Bool) (s : W.State)
      → (set_node_label W n k b s).0 ≡ ok tt
      → (lookup k (labels_of (set_node_label W n k b s).1 n) ≡ (if b then none else some ""))
        × ((l : String)
            → (l == k) ≡ false
            → lookup l (labels_of (set_node_label W n k b s).1 n) ≡ lookup l (labels_of s n))
  unfolding set_node_label
  set_node_label_ok n k b s h =
      let config : Exec W.State (Unit {0}) =
        wrapping "Failed to get cluster config: " W.in_cluster_config in
      let client : Exec W.State (Unit {0}) =
        wrapping "Failed to initialize clientset: " W.new_for_config in
      let get : Exec W.State Labels = wrapping "Failed to get the node object: " (W.get_node n) in
      let new : Labels → Exec W.State Labels = λ labels s. (new_labels W k b labels, s) in
      let write : Labels → Exec W.State (Unit {0}) =
        λ labels. wrapping "Failed to update the node object: " (W.update_node n labels) in
      let (ls, e1, q1) = bind-eq-ok (config >> client >> get >>= new) write s h in
      let (m, e2, q2) = bind-eq-ok (config >> client >> get) new s e1 in
      let (ready, e3) = then-eq-ok (config >> client) get s e2 in
      let t : W.State = ((config >> client) s).1 in
      let u : W.State = ((config >> client >> get >>= new) s).1 in
      let (shown, q3) = wrapping_result W "Failed to get the node object: " (W.get_node n) t m e3 in
      let made : new_labels W k b m ≡ ok ls =
        sym (ap (λ (r : Result Labels × W.State). r.0) q2) ∙ e1 in
      let wrote : (write ls u).0 ≡ ok tt =
        sym (ap (λ (r : Result (Unit {0}) × W.State). r.0) q1) ∙ h in
      let (updated, q4) =
        wrapping_result W "Failed to update the node object: " (W.update_node n ls) u tt wrote in
      let after : labels_of (set_node_label W n k b s).1 n ≡ ls =
        ap (λ (r : Result (Unit {0}) × W.State). labels_of r.1 n) q1
        ∙ ap (λ (v : W.State). labels_of v n) q4
        ∙ N.sets n ls u updated in
      let before : m ≡ labels_of s n =
        N.shows n t m shown
        ∙ then-Keeps (λ (v : W.State). labels_of v n) config client
            (wrapping-Keeps W (λ (v : W.State). labels_of v n) _ W.in_cluster_config
              (λ v. N.config_keeps v n))
            (wrapping-Keeps W (λ (v : W.State). labels_of v n) _ W.new_for_config
              (λ v. N.client_keeps v n))
            s in
      (
        ap (lookup k) after ∙ lookup-new_labels_same W k b m ls made,
        λ l other.
            ap (lookup l) after
            ∙ lookup-new_labels_other W k l b m ls other made
            ∙ ap (lookup l) before,
      )

  -- The loop finds a device that is supported where there is one.
  any_supported-eq-has_supported :
      (cfg : AcceleratorDiscoveryConfig) (ds : List PciDevice)
      → any_supported cfg ds ≡ has_supported cfg ds
  unfolding any_supported has_supported
  any_supported-eq-has_supported cfg [] = refl
  any_supported-eq-has_supported cfg (d ∷ ds) =
      ground (arith, is_supported-eq-supports cfg d, any_supported-eq-has_supported cfg ds)

  find_accelerator_ok :
      (cfg : AcceleratorDiscoveryConfig) (s : W.State) (found : Bool)
      → (find_accelerator W cfg s).0 ≡ ok found
      → (ds : List PciDevice) × ((W.list_devices s).0 ≡ ok ds) × (found ≡ any_supported cfg ds)
  unfolding find_accelerator get_pci_devices wrapping
  find_accelerator_ok cfg s found h = by_result (W.list_devices s).0 refl
    where
      by_result :
          (r : Result (List PciDevice))
          → (W.list_devices s).0 ≡ r
          → (ds : List PciDevice) × ((W.list_devices s).0 ≡ ok ds) × (found ≡ any_supported cfg ds)
      by_result (ok []) e = absurd (ground (arith, e, h))
      by_result (ok (d ∷ ds)) e = (d ∷ ds, e, ground (arith, e, h))
      by_result (err x) e = absurd (ground (arith, e, h))

  -- Where the labeler ends without an error, a configuration was read, then devices were listed, and
  -- the node has the label of the configuration just where one of the devices has a vendor, a class, a
  -- subclass and a product of the configuration.
  pub accelerator_discovery_ok :
      (path : String) (s : W.State)
      → (accelerator_discovery W path s).0 ≡ ok tt
      → (cfg : AcceleratorDiscoveryConfig) × (ds : List PciDevice) × ((load_discovery_config
            (config_file W)
            path
            s).0
          ≡ ok cfg)
        × ((W.list_devices (load_discovery_config (config_file W) path s).1).0 ≡ ok ds)
        × (lookup cfg.node_label (labels_of (accelerator_discovery W path s).1 W.node_name)
            ≡ (if has_supported cfg ds then some "" else none))
  unfolding accelerator_discovery
  accelerator_discovery_ok path s h =
      let find : AcceleratorDiscoveryConfig → Exec W.State Bool =
        λ cfg. wrapping "Failed to find accelerator: " (find_accelerator W cfg) in
      let mark : AcceleratorDiscoveryConfig → Bool → Exec W.State (Unit {0}) = λ cfg found.
        if W.node_name == ""
        then raise (failure "NODENAME environment variable is empty")
        else set_node_label W W.node_name cfg.node_label (not found) in
      let load = load_discovery_config (config_file W) path in
      let (cfg, e1, q1) =
        bind-eq-ok (wrapping "Failed to load config: " load) (λ cfg. find cfg >>= mark cfg) s h in
      let t : W.State = (wrapping "Failed to load config: " load s).1 in
      let h1 : ((find cfg >>= mark cfg) t).0 ≡ ok tt =
        sym (ap (λ (r : Result (Unit {0}) × W.State). r.0) q1) ∙ h in
      let (found, e2, q2) = bind-eq-ok (find cfg) (mark cfg) t h1 in
      let u : W.State = (find cfg t).1 in
      let h2 : (mark cfg found u).0 ≡ ok tt =
        sym (ap (λ (r : Result (Unit {0}) × W.State). r.0) q2) ∙ h1 in
      let (loaded, at_load) = wrapping_result W "Failed to load config: " load s cfg e1 in
      let (searched, _) =
        wrapping_result W "Failed to find accelerator: " (find_accelerator W cfg) t found e2 in
      let (ds, listed, any) = find_accelerator_ok cfg t found searched in
      (
        cfg,
        ds,
        loaded,
        ap (λ (v : W.State). (W.list_devices v).0) (sym at_load) ∙ listed,
        ap (λ (r : Result (Unit {0}) × W.State). lookup cfg.node_label (labels_of r.1 W.node_name))
              (q1 ∙ q2)
            ∙ marked cfg found u h2
            ∙ ap (λ (b : Bool). if b then some "" else none)
                (any ∙ any_supported-eq-has_supported cfg ds),
      )
    where
      marked :
          (cfg : AcceleratorDiscoveryConfig) (found : Bool) (u : W.State)
          → let mark : Exec W.State (Unit {0}) =
              if W.node_name == ""
              then raise (failure "NODENAME environment variable is empty")
              else set_node_label W W.node_name cfg.node_label (not found) in
            (mark u).0 ≡ ok tt
            → lookup cfg.node_label (labels_of (mark u).1 W.node_name)
              ≡ (if found then some "" else none)
      marked cfg found u h = elim (Bool-cases (W.node_name == "")) [
        | inl e ↦ absurd (ground (arith, e, h))
        | inr e ↦ ground (
          arith,
          e,
          h,
          (set_node_label_ok W.node_name cfg.node_label (not found) u (ground (arith, e, h))).0,
        )
      ]
