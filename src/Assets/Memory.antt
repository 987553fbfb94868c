-- ===== src/Assets/Memory.antt =====
-- A cluster in memory, whose objects are of a kind and a text. The text of a file is its path, and a text
-- is decoded as an object of that kind.
use openshift_operator.Base.{
  ℕ, ◌≡◌, ◌≢◌, refl, arith, Bool, true, false, String, [], ◌∷◌, ◌&&◌, ◌==◌, eq_iff, Option, none,
  some, not_found, Result, ok, err, Exec, pure, raise, ◌>>=◌, wait_timeout, Keeps, bind-Keeps,
  if-Keeps, if◌then◌else◌,
}
use openshift_operator.Api.{Key, key_eq, key_eq_iff}
use openshift_operator.Assets.{Gvk, KubeObject, Manager}
use openshift_operator.Assets.Laws.{IsCluster}

abbrev pub Thing : Type 0
Thing = KubeObject String

-- The cluster: what it has of each kind and name.
abbrev pub Cluster : Type 0
Cluster = Gvk × Key → Option Thing

abbrev pub kind_of : String → Gvk
kind_of kind = record { group = "apps"; version = "v1"; kind = kind }

abbrev pub object_of : String → Thing
object_of kind = record {
  gvk = kind_of kind;
  key = record { namespace = "vran"; name = "daemon" };
  resource_version = "";
  body = "spec";
}

-- One step of the retry loop
unfoldable pub wait_once : ℕ → Exec Cluster Bool → Exec Cluster (Unit {0})
wait_once n f = f >>= λ ready. if ready then pure tt else raise wait_timeout

pub wait_once-Keeps :
    (n : ℕ) (f : Exec Cluster Bool) (i : Gvk × Key)
    → Keeps (λ (c : Cluster). c i) f
    → Keeps (λ (c : Cluster). c i) (wait_once n f)
unfolding wait_once
wait_once-Keeps n f i h =
    bind-Keeps (λ (c : Cluster). c i) f _ h
      (λ ready.
        if-Keeps (λ (c : Cluster). c i) ready (pure tt) (raise wait_timeout) (λ s. refl)
          (λ s. refl))

unfoldable pub id_eq : Gvk × Key → Gvk × Key → Bool
id_eq (g, k) (h, l) =
    (g.group == h.group && (g.version == h.version && g.kind == h.kind)) && key_eq k l

id_eq_refl : (i : Gvk × Key) → id_eq i i ≡ true
unfolding id_eq key_eq
id_eq_refl (g, k) = ground (
  arith,
  eq_iff g.group g.group,
  eq_iff g.version g.version,
  eq_iff g.kind g.kind,
  eq_iff k.namespace k.namespace,
  eq_iff k.name k.name,
)

gvk_eq_of_fields : (g h : Gvk) → g.group ≡ h.group → g.version ≡ h.version → g.kind ≡ h.kind → g ≡ h
gvk_eq_of_fields g h a b c = cc

id_eq_same : (i j : Gvk × Key) → id_eq i j ≡ true → i ≡ j
unfolding id_eq
id_eq_same (g, k) (h, l) e =
    let same_gvk : g ≡ h =
      gvk_eq_of_fields g h (ground (arith, e, eq_iff g.group h.group))
        (ground (arith, e, eq_iff g.version h.version)) (ground (arith, e, eq_iff g.kind h.kind)) in
    let same_key : k ≡ l = ground (arith, e, key_eq_iff k l) in cc

unfoldable pub write : Thing → Exec Cluster Thing
write o c = (ok o, λ i. if id_eq (o.gvk, o.key) i then some o else c i)

unfoldable pub read : Gvk → Key → Exec Cluster Thing
read g k c = (elim (c (g, k)) [ none ↦ err (not_found "object") | some o ↦ ok o ], c)

abbrev pub manager : Manager
manager = record {
  State = Cluster;
  Body = String;
  env_prefix = "FPGA_";
  owner_namespace = "vran";
  environ = [];
  list_kernels = pure ("4.18" ∷ []);
  clean = λ path. path;
  is_dir = λ path. pure false;
  read_file = λ path. pure path;
  parse = λ text. ok (λ vars. ok text);
  decode = λ text. ok (object_of text);
  set_controller_reference = λ o. ok o;
  deep_derivative = λ o p. o.body == p.body;
  get = read;
  create = write;
  update = write;
  number_unavailable = λ k. pure 0;
  exponential_backoff = wait_once;
}

pub read_found :
    (g : Gvk) (k : Key) (c : Cluster) (o : Thing) → (read g k c).0 ≡ ok o → c (g, k) ≡ some o
unfolding read
read_found g k c o h = by_entry (c (g, k)) refl
  where
    by_entry : (e : Option Thing) → c (g, k) ≡ e → c (g, k) ≡ some o
    by_entry e eq = ground (arith, eq, h)

pub write_ok :
    (o p : Thing) (c : Cluster)
    → (write o c).0 ≡ ok p
    → ((write o c).1 (o.gvk, o.key) ≡ some p) × ((o.body == p.body) ≡ true)
unfolding write
write_ok o p c h = ground (arith, h, id_eq_refl (o.gvk, o.key), eq_iff o.body p.body)

pub write_keeps :
    (o : Thing) (i : Gvk × Key) → (o.gvk, o.key) ≢ i → (c : Cluster) → (write o c).1 i ≡ c i
unfolding write
write_keeps o i ne c = ground (arith, ne, id_eq_same (o.gvk, o.key) i)

pub owner_same :
    (o p : Thing) → Path (Result Thing) (ok o) (ok p) → (p.gvk ≡ o.gvk) × (p.key ≡ o.key)
owner_same o p h = ground (arith, h)

abbrev pub manager_cluster : IsCluster manager
unfolding read
manager_cluster = record {
  stored = λ i c. c i;
  get_found = read_found;
  get_keeps = λ g k i c. refl;
  create_ok = write_ok;
  update_ok = write_ok;
  forget_version = λ o p h. h;
  create_keeps = write_keeps;
  update_keeps = write_keeps;
  ready_keeps = λ k i c. refl;
  backoff_keeps = wait_once-Keeps;
  kernels_keeps = λ i c. refl;
  dir_keeps = λ path i c. refl;
  file_keeps = λ path i c. refl;
  owner_keeps = owner_same;
}
