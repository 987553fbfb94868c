-- ===== src/Fec/Memory.antt =====
-- A node with one accelerator whose sysfs, files and commands are a record, and the documented
-- behaviour of each of them.
use openshift_operator.Base.{
  ◌≢◌, sym, ap, contains, ℕ, ◌≡◌, refl, ◌⊎◌, inl, inr, Bool, true, false, ◌||◌, String, ◌<>◌, List,
  [], ◌∷◌, ◌==◌, eq_iff, Option, none, some, arith, eqb, itoa, atoi, atoi-itoa, failure, not_exist,
  ok, err, Exec, Bool-cases, ◌∙◌, if◌then◌else◌,
}
use openshift_operator.Fec.{Machine, PciDevice, IniSection}
use openshift_operator.Fec.Devices.{◌/path◌, sys_bus_pci_devices, sys_bus_pci_drivers, vf_num_file}
use openshift_operator.Fec.Kernel.Laws.{HasKargs}
use openshift_operator.Fec.Inventory.Laws.{ReadsOnly}
use openshift_operator.Fec.Apply.Keeping.{HasFiles}
use openshift_operator.Fec.Devices.Laws.{HasDrivers, HasVfs}

pub record Sysfs : Type 0 where
  pub bound : Option Bool
  pub override : String
  pub vfs : ℕ
  pub kernel_args : String
  pub saved : List IniSection
  pub files : List String
  pub cordoned : Bool
  pub drained : Bool

abbrev pub pf : String
pf = "0000:01:00.0"

-- One of the two drivers of the node.
unfoldable pub name_of : Bool → String
name_of true = "pci-pf-stub"
name_of false = "igb_uio"

-- A write to the sysfs.
unfoldable pub write : String → String → Exec Sysfs (Unit {0})
write path text s =
    if path == "/sys/bus/pci/devices/0000:01:00.0/sriov_numvfs"
    then (if eqb (atoi text) 0 || eqb s.vfs 0
        then (ok tt, record s { vfs = atoi text })
        else (err (failure "busy"), s))
    else if path == "/sys/bus/pci/devices/0000:01:00.0/driver_override"
    then (ok tt, record s { override = text })
    else if path == "/sys/bus/pci/drivers/pci-pf-stub/bind"
    then (if s.override == "pci-pf-stub"
        then (ok tt, record s { bound = some true })
        else (err (failure "no such device"), s))
    else if path == "/sys/bus/pci/drivers/igb_uio/bind"
    then (if s.override == "igb_uio"
        then (ok tt, record s { bound = some false })
        else (err (failure "no such device"), s))
    else (ok tt, record s { bound = none })

unfoldable pub find_driver : Option Bool → Exec Sysfs String
find_driver none s = (err (not_exist "no such file or directory"), s)
find_driver (some b) s = (ok (sys_bus_pci_drivers /path name_of b), s)

unfoldable pub find_bound : Option Bool → Exec Sysfs (Unit {0})
find_bound none s = (err (not_exist "no such file or directory"), s)
find_bound (some b) s = (ok tt, s)

unfoldable pub device : PciDevice
device = record {
  address = pf;
  vendor_id = "8086";
  class_id = "12";
  subclass_id = "00";
  product_id = "0d5c";
}

-- A list of paths without one of them.
unfoldable pub delete : String → List String → List String
delete path [] = []
delete path (x ∷ xs) = let rest = delete path xs in if x == path then rest else x ∷ rest

-- The commands that there are are `rpm-ostree kargs` with and without `--append`, and the read of
-- `setpci`.
unfoldable pub command : List String → Exec Sysfs String
command (a ∷ b ∷ c ∷ d ∷ e ∷ f ∷ param ∷ args) s =
    (ok "", record s { kernel_args = s.kernel_args <> (" " <> param) })
command (a ∷ b ∷ c ∷ d ∷ e ∷ f ∷ []) s = (ok "0000:01:00.0 @04 = 0006", s)
command args s = (ok s.kernel_args, s)

abbrev pub machine : Machine
machine = record {
  State = Sysfs;
  output = λ name args. command args;
  stat = λ path s. find_bound s.bound s;
  eval_symlinks = λ path s. find_driver s.bound s;
  write_file = write;
  read_file = λ path s. (ok s.kernel_args, s);
  remove = λ path s. (ok tt, record s { files = delete path s.files });
  save_to = λ content path s. (ok tt, record s { saved = content; files = path ∷ s.files });
  vf_configured = λ address s. s.vfs;
  vf_list = λ address s. (ok [], s);
  is_sriov_pf = λ address s. true;
  driver_name = λ address s. (err (failure "no driver"), s);
  vf_capacity = λ address s. 16;
  list_devices = λ s. (ok (device ∷ []), s);
  get_device = λ address s. none;
}

unfoldable pub bound_name : Option Bool → Option String
bound_name none = none
bound_name (some b) = some (name_of b)

unfoldable pub is_driver : String → Bool
is_driver x = x == "pci-pf-stub" || x == "igb_uio"

unfoldable pub is_pf : String → Bool
is_pf d = d == pf

pub from_is_pf : (d : String) → is_pf d ≡ true → d ≡ pf
unfolding is_pf
from_is_pf d h = (eq_iff d pf).0 h

pub from_bound_name :
    (o : Option Bool) (x : String)
    → bound_name o ≡ some x
    → (b : Bool) × (o ≡ some b) × (x ≡ name_of b)
unfolding bound_name
from_bound_name none x h = absurd (ground arith)
from_bound_name (some b) x h = (b, refl, ground arith)

pub from_is_driver : (x : String) → is_driver x ≡ true → (b : Bool) × (x ≡ name_of b)
unfolding is_driver name_of
from_is_driver x h = elim (Bool-cases (x == "pci-pf-stub")) [
  | inl e ↦ (true, (eq_iff x "pci-pf-stub").0 e)
  | inr e ↦ (false, (eq_iff x "igb_uio").0 (ground (arith, e)))
]

pub write_unbind :
    (b : Bool) (d : String) (s : Sysfs)
    → write ((sys_bus_pci_drivers /path name_of b) /path "unbind") d s
      ≡ (ok tt, record s { bound = none })
unfolding write name_of
write_unbind true d s = refl
write_unbind false d s = refl

pub write_override :
    (d x : String) (s : Sysfs)
    → is_pf d ≡ true
    → write (sys_bus_pci_devices /path d /path "driver_override") x s
      ≡ (ok tt, record s { override = x })
unfolding write
write_override d x s h = rw (from_is_pf d h) refl

pub write_bind :
    (b : Bool) (d : String) (s : Sysfs)
    → s.override ≡ name_of b
    → write (sys_bus_pci_drivers /path name_of b /path "bind") d s
      ≡ (ok tt, record s { bound = some b })
unfolding write name_of
write_bind true d s h = rw h refl
write_bind false d s h = rw h refl

pub write_vfs :
    (d : String) (n : ℕ) (s : Sysfs)
    → is_pf d ≡ true
    → (n ≡ 0) ⊎ (s.vfs ≡ 0)
    → write (sys_bus_pci_devices /path d /path vf_num_file) (itoa n) s
      ≡ (ok tt, record s { vfs = n })
unfolding write
write_vfs d n s h (inl e) = rw (from_is_pf d h, atoi-itoa n, e) refl
write_vfs d n s h (inr e) = rw (from_is_pf d h, atoi-itoa n, e) (ground arith)

pub stat_none :
    (o : Option Bool) (s : Sysfs)
    → bound_name o ≡ none
    → find_bound o s ≡ (err (not_exist "no such file or directory"), s)
unfolding bound_name find_bound
stat_none o s h = ground arith

unfoldable pub machine-HasDrivers : HasDrivers machine
unfolding bound_name find_bound find_driver
machine-HasDrivers = record {
  device = is_pf;
  driver_of = λ s d. bound_name s.bound;
  override_of = λ s d. s.override;
  loaded = λ s x. is_driver x;
  stat_bound = λ s d x h e. let (b, o, n) = from_bound_name s.bound x e in rw o refl;
  missing = λ d. not_exist "no such file or directory";
  missing_lem = λ d. ("no such file or directory", refl);
  stat_free = λ s d h e. stat_none s.bound s e;
  link = λ s d x h e. let (b, o, n) = from_bound_name s.bound x e in rw (o, n) refl;
  unbind = λ s d x y h e.
      let (b, o, n) = from_bound_name s.bound x e in rw (n, write_unbind b d s) (refl, refl, refl);
  override = λ s d x y h. rw (write_override d x s h) (refl, refl, refl, refl);
  bind = λ s d x h e o l.
      let (b, n) = from_is_driver x l in rw (n, write_bind b d s (o ∙ n)) (refl, refl);
}

abbrev pub machine-HasVfs : HasVfs machine
machine-HasVfs = record {
  pf = is_pf;
  total_vfs = λ d. 16;
  num_vfs = λ s d n h few e. rw (write_vfs d n s h e) (refl, refl);
}

pub delete-contains :
    (f p : String) (xs : List String)
    → contains (delete f xs) p ≡ true
    → ((p == f) ≡ false) × (contains xs p ≡ true)
unfolding delete contains
delete-contains f p [] h = absurd (ground (arith, h))
delete-contains f p (x ∷ xs) h = ground (arith, h, delete-contains f p xs, eq_iff x f, eq_iff x p)

pub command_keeps : (args : List String) (s : Sysfs) → (command args s).1.files ≡ s.files
unfolding command
command_keeps args s = ground arith

pub write_keeps_files : (path text : String) (s : Sysfs) → (write path text s).1.files ≡ s.files
unfolding write
write_keeps_files path text s = ground arith

pub find_bound_keeps : (o : Option Bool) (s : Sysfs) → (find_bound o s).1 ≡ s
unfolding find_bound
find_bound_keeps none s = refl
find_bound_keeps (some b) s = refl

pub find_driver_keeps : (o : Option Bool) (s : Sysfs) → (find_driver o s).1 ≡ s
unfolding find_driver
find_driver_keeps none s = refl
find_driver_keeps (some b) s = refl

pub saved_lem :
    (file p : String) (files : List String)
    → contains (file ∷ files) p ≡ true
    → (p ≡ file) ⊎ (contains files p ≡ true)
unfolding contains
saved_lem file p files h = elim (Bool-cases (file == p)) [
  | inl e ↦ inl (sym ((eq_iff file p).0 e))
  | inr e ↦ inr (ground (arith, e, h))
]

pub removed_lem :
    (file p : String) (files : List String)
    → contains (delete file files) p ≡ true
    → (p ≢ file) × (contains files p ≡ true)
removed_lem file p files h =
    let (e, there) = delete-contains file p files h in
    ((λ same. absurd (ground (arith, e, same, eq_iff p file))), there)

abbrev pub machine-HasFiles : HasFiles machine
machine-HasFiles = record {
  has_file = λ s. contains s.files;
  output_keeps = λ cmd args s. ap contains (command_keeps args s);
  stat_keeps = λ path s. ap (λ (t : Sysfs). contains t.files) (find_bound_keeps s.bound s);
  link_keeps = λ path s. ap (λ (t : Sysfs). contains t.files) (find_driver_keeps s.bound s);
  write_keeps = λ path text s. ap contains (write_keeps_files path text s);
  vf_list_keeps = λ address s. refl;
  saved = λ content file p s h. saved_lem file p s.files h;
  removed = λ file p s e h. removed_lem file p s.files h;
  remove_adds_none = λ file p s h. (removed_lem file p s.files h).1;
}

unfoldable pub machine-HasKargs : HasKargs machine
unfolding command
machine-HasKargs = record {
  kargs = λ s. s.kernel_args;
  read = λ s. refl;
  append = λ s param out h. refl;
}

abbrev pub machine-ReadsOnly : ReadsOnly machine
machine-ReadsOnly = record {
  devices_keep = λ s. refl;
  driver_keep = λ a s. refl;
  vfs_keep = λ a s. refl;
}
