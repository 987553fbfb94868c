-- ===== src/Fec/Apply/Memory.antt =====
-- The node in memory with one physical function, and the documented behaviour of its sysfs.
use openshift_operator.Base.{
  ℕ, ◌≡◌, ◌≢◌, refl, ap, arith, Bool, true, false, String, List, [], ◌∷◌, ◌==◌, eq_iff, Option,
  none, some, All, itoa, atoi-itoa, Result, ok, if◌then◌else◌,
}
use openshift_operator.Fec.{Machine}
use openshift_operator.Fec.Devices.{◌/path◌, sys_bus_pci_devices, sys_bus_pci_drivers, vf_num_file}
use openshift_operator.Fec.Apply.Facts.{Fact, bound, amount, subject, Holds, HasSysfs}
use openshift_operator.Fec.Memory.{
  Sysfs, pf, name_of, write, command, machine, bound_name, is_driver, is_pf, from_is_pf,
  from_is_driver, find_bound_keeps, find_driver_keeps, write_override,
}

-- The node with the amount of each device.
abbrev pub one_pf : Machine
one_pf = record machine { vf_configured = λ address s. if is_pf address then s.vfs else 0 }

unfoldable pub bound_to : Sysfs → String → Option String
bound_to s d = if is_pf d then bound_name s.bound else none

-- What is the same in two states holds in both.
pub same-Holds :
    (f : Fact) (s t : Sysfs)
    → t.bound ≡ s.bound
    → t.vfs ≡ s.vfs
    → Holds one_pf bound_to f s
    → Holds one_pf bound_to f t
unfolding Holds bound_to
same-Holds (bound d x) s t b v h = rw b h
same-Holds (amount d n) s t b v h = rw v h

-- A fact about another device than the physical function does not depend on the state.
pub other-Holds :
    (f : Fact) (d : String) (s t : Sysfs)
    → is_pf d ≡ true
    → subject f ≢ d
    → Holds one_pf bound_to f s
    → Holds one_pf bound_to f t
unfolding Holds bound_to is_pf subject
other-Holds (bound e x) d s t known other h =
    let differs : (e == pf) ≡ false = ground (arith, other, eq_iff e pf, eq_iff d pf, known) in
    rw differs (rw differs at h)
other-Holds (amount e n) d s t known other h =
    let differs : (e == pf) ≡ false = ground (arith, other, eq_iff e pf, eq_iff d pf, known) in
    rw differs (rw differs at h)

pub command_bound : (args : List String) (s : Sysfs) → (command args s).1.bound ≡ s.bound
unfolding command
command_bound args s = ground arith

pub command_vfs : (args : List String) (s : Sysfs) → (command args s).1.vfs ≡ s.vfs
unfolding command
command_vfs args s = ground arith

bind_binds :
    (b : Bool) (d : String) (s : Sysfs)
    → is_pf d ≡ true
    → (write (sys_bus_pci_drivers /path name_of b /path "bind") d s).0 ≡ ok tt
    → bound_to (write (sys_bus_pci_drivers /path name_of b /path "bind") d s).1 d ≡ some (name_of b)
unfolding write name_of bound_to bound_name
bind_binds true d s known h = ground (arith, known, h)
bind_binds false d s known h = ground (arith, known, h)

sets_amount :
    (n : ℕ) (s : Sysfs)
    → (write (sys_bus_pci_devices /path pf /path vf_num_file) (itoa n) s).0 ≡ ok tt
    → (write (sys_bus_pci_devices /path pf /path vf_num_file) (itoa n) s).1.vfs ≡ n
unfolding write
sets_amount n s h = ground (arith, h, atoi-itoa n)

amount_bound :
    (text : String) (s : Sysfs)
    → (write (sys_bus_pci_devices /path pf /path vf_num_file) text s).1.bound ≡ s.bound
unfolding write
amount_bound text s = ground arith

pub sysfs_bind_ok :
    (d x : String) (s : Sysfs)
    → is_pf d ≡ true
    → is_driver x ≡ true
    → (write (sys_bus_pci_drivers /path x /path "bind") d s).0 ≡ ok tt
    → bound_to (write (sys_bus_pci_drivers /path x /path "bind") d s).1 d ≡ some x
sysfs_bind_ok d x s known there h = let (b, n) = from_is_driver x there in at_name b n
  where
    at_name :
        (b : Bool)
        → x ≡ name_of b
        → bound_to (write (sys_bus_pci_drivers /path x /path "bind") d s).1 d ≡ some x
    at_name b n = rw n (bind_binds b d s known (rw n at h))

pub sysfs_amount_ok :
    (d : String) (n : ℕ) (s : Sysfs)
    → is_pf d ≡ true
    → let r = write (sys_bus_pci_devices /path d /path vf_num_file) (itoa n) s in
      r.0 ≡ ok tt → one_pf.vf_configured d r.1 ≡ n
unfolding is_pf
sysfs_amount_ok d n s known = rw (from_is_pf d known) (sets_amount n s)

pub none_listed :
    (d : String) (vs : List String)
    → Path (Result (List String)) (ok []) (ok vs)
    → All (λ v. (is_pf v ≡ true) × (Path (Option String) none (some d))) vs
none_listed d [] h = tt
none_listed d (v ∷ vs) h = absurd (ground (arith, h))

pub driver_kept :
    (d x : String) (n : ℕ) (s : Sysfs)
    → is_pf d ≡ true
    → bound_to s d ≡ some x
    → bound_to (write (sys_bus_pci_devices /path d /path vf_num_file) (itoa n) s).1 d ≡ some x
unfolding bound_to
driver_kept d x n s known h =
    rw (from_is_pf d known, amount_bound (itoa n) s) (rw (from_is_pf d known) at h)

pub override-Holds :
    (d x : String) (f : Fact) (s : Sysfs)
    → is_pf d ≡ true
    → Holds one_pf bound_to f s
    → Holds one_pf bound_to f (write (sys_bus_pci_devices /path d /path "driver_override") x s).1
override-Holds d x f s known h = rw (write_override d x s known) (same-Holds f s _ refl refl h)

unfoldable pub one_pf-HasSysfs : HasSysfs one_pf
unfolding Holds
one_pf-HasSysfs = record {
  driver_of = bound_to;
  device = is_pf;
  loadable = is_driver;
  parent = λ d. none;
  bind_ok = sysfs_bind_ok;
  amount_ok = sysfs_amount_ok;
  listed = λ d s vs h. none_listed d vs h;
  bind_leaves = λ d x f known there other s h. other-Holds f d s _ known other h;
  unbind_leaves = λ d folder f known other s h. other-Holds f d s _ known other h;
  amount_leaves = λ d n f known other apart s h. other-Holds f d s _ known other h;
  driver_stays = λ d x n known s h. driver_kept d x n s known h;
  override_leaves = λ d x f known there s h. override-Holds d x f s known h;
  output_leaves = λ cmd args f s h. same-Holds f s _ (command_bound args s) (command_vfs args s) h;
  stat_leaves = λ p f s h.
      same-Holds f s _ (ap (λ (t : Sysfs). t.bound) (find_bound_keeps s.bound s))
        (ap (λ (t : Sysfs). t.vfs) (find_bound_keeps s.bound s)) h;
  link_leaves = λ p f s h.
      same-Holds f s _ (ap (λ (t : Sysfs). t.bound) (find_driver_keeps s.bound s))
        (ap (λ (t : Sysfs). t.vfs) (find_driver_keeps s.bound s)) h;
  vf_list_leaves = λ d f s h. h;
  save_leaves = λ content p f s h. same-Holds f s _ refl refl h;
  remove_leaves = λ p f s h. same-Holds f s _ refl refl h;
}
