-- ===== src/Assets/Laws.antt =====
-- What a deployment without an error leaves on the cluster.
use openshift_operator.Base.{
  ℕ, Bool, String, ◌≡◌, ◌≢◌, refl, sym, ap, ◌∙◌, arith, true, List, [], ◌∷◌, All, Option, some,
  Result, ok, err, Exec, branch, Keeps, is_not_found, Bool-cases, inl, inr,
}
use openshift_operator.Api.{Key}
use openshift_operator.Assets.{
  ends, Gvk, KubeObject, Manager, set_owner, update_changed, write_object, create_or_update_object,
  after_object, create_or_update,
}

-- An object without a resource version, as it is loaded.
abbrev pub unversioned : {B : Type 0} → KubeObject B → KubeObject B
unversioned o = record o { resource_version = "" }

-- The kind and the name of an object.
abbrev pub id_of : {B : Type 0} → KubeObject B → Gvk × Key
id_of o = (o.gvk, o.key)

-- What the code relies on: the objects of the cluster, each under its kind and name. A write that
-- returns no error leaves there the object that it returns, which has all that was sent but for the
-- resource version; a call leaves the other objects alone, and a wait leaves all that its check does;
-- what is read of the nodes and of files changes no object; the owner changes neither the kind nor the
-- name.
pub record IsCluster (M : Manager) : Type 0 where
  pub stored : Gvk × Key → M.State → Option (KubeObject M.Body)
  pub get_found :
      (g : Gvk) (k : Key) (s : M.State) (o : KubeObject M.Body)
      → (M.get g k s).0 ≡ ok o
      → stored (g, k) s ≡ some o
  pub get_keeps : (g : Gvk) (k : Key) (i : Gvk × Key) → Keeps (stored i) (M.get g k)
  pub create_ok :
      (o p : KubeObject M.Body) (s : M.State)
      → (M.create o s).0 ≡ ok p
      → (stored (o.gvk, o.key) (M.create o s).1 ≡ some p)
        × (M.deep_derivative (unversioned o) p ≡ true)
  pub update_ok :
      (o p : KubeObject M.Body) (s : M.State)
      → (M.update o s).0 ≡ ok p
      → (stored (o.gvk, o.key) (M.update o s).1 ≡ some p)
        × (M.deep_derivative (unversioned o) p ≡ true)
  pub forget_version :
      (o p : KubeObject M.Body)
      → M.deep_derivative o p ≡ true
      → M.deep_derivative (unversioned o) p ≡ true
  pub create_keeps :
      (o : KubeObject M.Body) (i : Gvk × Key) → (o.gvk, o.key) ≢ i → Keeps (stored i) (M.create o)
  pub update_keeps :
      (o : KubeObject M.Body) (i : Gvk × Key) → (o.gvk, o.key) ≢ i → Keeps (stored i) (M.update o)
  pub ready_keeps : (k : Key) (i : Gvk × Key) → Keeps (stored i) (M.number_unavailable k)
  pub backoff_keeps :
      (n : ℕ) (f : Exec M.State Bool) (i : Gvk × Key)
      → Keeps (stored i) f
      → Keeps (stored i) (M.exponential_backoff n f)
  pub kernels_keeps : (i : Gvk × Key) → Keeps (stored i) M.list_kernels
  pub dir_keeps : (path : String) (i : Gvk × Key) → Keeps (stored i) (M.is_dir path)
  pub file_keeps : (path : String) (i : Gvk × Key) → Keeps (stored i) (M.read_file path)
  pub owner_keeps :
      (o p : KubeObject M.Body)
      → M.set_controller_reference o ≡ ok p
      → (p.gvk ≡ o.gvk) × (p.key ≡ o.key)

module _ (M : Manager) (C : IsCluster M) where
  open M use {State, Body}
  open C use {stored}

  -- The cluster has the object, with its owner, in all that was asked for.
  unfoldable pub IsDeployed : State → KubeObject Body → Type 0
  IsDeployed s o =
      (w p : KubeObject Body) × (set_owner M o ≡ ok w)
      × (stored (o.gvk, o.key) s ≡ some p)
      × (M.deep_derivative (unversioned w) p ≡ true)

  -- The cluster has the object in all that it says.
  Has : State → KubeObject Body → Type 0
  Has s o =
      (p : KubeObject Body) × (stored (o.gvk, o.key) s ≡ some p)
      × (M.deep_derivative (unversioned o) p ≡ true)

  ends_ok :
      (obj : KubeObject Body) (m : Exec State (KubeObject Body)) (s : State)
      → (ends M obj m s).0 ≡ ok tt
      → (p : KubeObject Body) × ((m s).0 ≡ ok p) × ((ends M obj m s).1.1 ≡ (m s).1)
  ends_ok obj m s h = by_result (m s).0 refl
    where
      by_result :
          (r : Result (KubeObject Body))
          → (m s).0 ≡ r
          → (p : KubeObject Body) × ((m s).0 ≡ ok p) × ((ends M obj m s).1.1 ≡ (m s).1)
      by_result (ok p) e = (p, e, ground (arith, e))
      by_result (err x) e = absurd (ground (arith, e, h))

  -- After its turn an object is there.
  abbrev Writes : KubeObject Body → Result (Unit {0}) × (KubeObject Body × State) → Type 0
  Writes o r = r.0 ≡ ok tt → Has r.1.1 o

  update_changed-Writes :
      (o old : KubeObject Body) (s t : State)
      → (M.get o.gvk o.key s).0 ≡ ok old
      → (M.get o.gvk o.key s).1 ≡ t
      → Writes o (update_changed M o old t)
  unfolding update_changed Has
  update_changed-Writes o old s t found after = elim (Bool-cases (M.deep_derivative o old)) [
    | inl h ↦ rw h (λ _. (
      old,
      ground (
        arith,
        C.get_found o.gvk o.key s old found,
        C.get_keeps o.gvk o.key (o.gvk, o.key) s,
        after,
      ),
      C.forget_version o old h,
    ))
    | inr h ↦
        let o' : KubeObject Body = record o { resource_version = old.resource_version } in
        rw h (λ e.
          let (p, written, same) = ends_ok o' (M.update o') t e in
          let (there, covers) = C.update_ok o' p t written in rw same (p, there, covers))
  ]

  write_object-Writes : (o : KubeObject Body) (s : State) → Writes o (write_object M o s)
  unfolding write_object Has
  write_object-Writes o s = by_result (M.get o.gvk o.key s).0 refl
    where
      t : State
      t = (M.get o.gvk o.key s).1

      by_result :
          (r : Result (KubeObject Body))
          → (M.get o.gvk o.key s).0 ≡ r
          → Writes o (write_object M o s)
      by_result (ok old) e = rw (e, branch) (update_changed-Writes o old s t e refl)
      by_result (err x) e = elim (Bool-cases (is_not_found x)) [
        | inl h ↦
            rw (e, branch, h)
              (λ c.
                let (p, written, same) = ends_ok o (M.create o) t c in
                let (there, covers) = C.create_ok o p t written in rw same (p, there, covers))
        | inr h ↦ rw (e, branch, h) (λ c. absurd (ground (arith, c)))
      ]

  set_owner_keeps :
      (o w : KubeObject Body) → set_owner M o ≡ ok w → (w.gvk ≡ o.gvk) × (w.key ≡ o.key)
  unfolding set_owner
  set_owner_keeps o w h = ground (arith, C.owner_keeps o w, h)

  object-IsDeployed :
      (o : KubeObject Body) (s : State)
      → (create_or_update_object M o s).0 ≡ ok tt
      → IsDeployed (create_or_update_object M o s).1.1 o
  unfolding create_or_update_object IsDeployed Has
  object-IsDeployed o s h = by_owner (set_owner M o) refl
    where
      by_owner :
          (r : Result (KubeObject Body))
          → set_owner M o ≡ r
          → IsDeployed (create_or_update_object M o s).1.1 o
      by_owner (ok w) e =
          let (p, there, covers) = write_object-Writes w s (ground (arith, e, h)) in
          let (g, k) = set_owner_keeps o w e in (w, p, e, ground (arith, e, there, g, k), covers)
      by_owner (err x) e = absurd (ground (arith, e, h))

  -- The turn of an object leaves the others alone.
  ends-Keeps :
      (i : Gvk × Key) (o : KubeObject Body) (m : Exec State (KubeObject Body)) (s : State)
      → Keeps (stored i) m
      → stored i (ends M o m s).1.1 ≡ stored i s
  ends-Keeps i o m s keeps = ground (arith, keeps s)

  update_changed-Keeps :
      (i : Gvk × Key) (o old : KubeObject Body) (s : State)
      → (o.gvk, o.key) ≢ i
      → stored i (update_changed M o old s).1.1 ≡ stored i s
  unfolding update_changed
  update_changed-Keeps i o old s ne = elim (Bool-cases (M.deep_derivative o old)) [
    | inl h ↦ rw h refl
    | inr h ↦
        let o' : KubeObject Body = record o { resource_version = old.resource_version } in
        rw h (ends-Keeps i o' (M.update o') s (C.update_keeps o' i ne))
  ]

  write_object-Keeps :
      (i : Gvk × Key) (o : KubeObject Body) (s : State)
      → (o.gvk, o.key) ≢ i
      → stored i (write_object M o s).1.1 ≡ stored i s
  unfolding write_object
  write_object-Keeps i o s ne = by_result (M.get o.gvk o.key s).0 refl
    where
      t : State
      t = (M.get o.gvk o.key s).1

      read : stored i t ≡ stored i s
      read = C.get_keeps o.gvk o.key i s

      by_result :
          (r : Result (KubeObject Body))
          → (M.get o.gvk o.key s).0 ≡ r
          → stored i (write_object M o s).1.1 ≡ stored i s
      by_result (ok old) e = rw (e, branch) (update_changed-Keeps i o old t ne ∙ read)
      by_result (err x) e = elim (Bool-cases (is_not_found x)) [
        | inl h ↦ rw (e, branch, h) (ends-Keeps i o (M.create o) t (C.create_keeps o i ne) ∙ read)
        | inr h ↦ rw (e, branch, h) read
      ]

  object-Keeps :
      (i : Gvk × Key) (o : KubeObject Body) (s : State)
      → (o.gvk, o.key) ≢ i
      → stored i (create_or_update_object M o s).1.1 ≡ stored i s
  unfolding create_or_update_object
  object-Keeps i o s ne = by_owner (set_owner M o) refl
    where
      by_owner :
          (r : Result (KubeObject Body))
          → set_owner M o ≡ r
          → stored i (create_or_update_object M o s).1.1 ≡ stored i s
      by_owner (ok w) e =
          let (g, k) = set_owner_keeps o w e in
          rw (create_or_update_object, e)
            (write_object-Keeps i w s (λ same.
              ne (sym (ap (λ (x : Gvk). (x, w.key)) g ∙ ap (λ (x : Key). (o.gvk, x)) k) ∙ same)))
      by_owner (err x) e = rw (create_or_update_object, e) refl

  -- Objects of which no two have the same kind and name.
  unfoldable pub AreDistinct : List (KubeObject Body) → Type 0
  AreDistinct [] = Unit
  AreDistinct (o ∷ os) = All (λ p. id_of p ≢ id_of o) os × AreDistinct os

  pub objects-Keeps :
      (i : Gvk × Key) (os : List (KubeObject Body)) (s : State)
      → All (λ p. id_of p ≢ i) os
      → stored i (create_or_update M os s).1.1 ≡ stored i s
  unfolding create_or_update after_object
  objects-Keeps i [] s ne = refl
  objects-Keeps i (o ∷ os) s (ne, nes) =
      by_turn (create_or_update_object M o s) (object-Keeps i o s ne)
        (λ t. objects-Keeps i os t nes)
    where
      by_turn :
          (r : Result (Unit {0}) × (KubeObject Body × State))
          → stored i r.1.1 ≡ stored i s
          → ((t : State) → stored i (create_or_update M os t).1.1 ≡ stored i t)
          → stored i (after_object M os (create_or_update M os) r).1.1 ≡ stored i s
      by_turn (ok u, (o', t)) kept rest = rest t ∙ kept
      by_turn (err e, (o', t)) kept rest = kept

  -- Where the objects of an asset, no two of which have the same kind and name, are created or
  -- updated without an error, the cluster has each of them under its kind and name, with its owner,
  -- in all that it asks for but the resource version, whichever of them were there before.
  pub create_or_update-IsDeployed :
      (os : List (KubeObject Body)) (s : State)
      → AreDistinct os
      → (create_or_update M os s).0 ≡ ok tt
      → All (IsDeployed (create_or_update M os s).1.1) os
  unfolding create_or_update after_object AreDistinct IsDeployed
  create_or_update-IsDeployed [] s d h = tt
  create_or_update-IsDeployed (o ∷ os) s (ne, d) h =
      by_turn (create_or_update_object M o s) h (object-IsDeployed o s)
        (λ t. create_or_update-IsDeployed os t d)
    where
      by_turn :
          (r : Result (Unit {0}) × (KubeObject Body × State))
          → (after_object M os (create_or_update M os) r).0 ≡ ok tt
          → (r.0 ≡ ok tt → IsDeployed r.1.1 o)
          → ((t : State)
              → (create_or_update M os t).0 ≡ ok tt
              → All (IsDeployed (create_or_update M os t).1.1) os)
          → All (IsDeployed (after_object M os (create_or_update M os) r).1.1) (o ∷ os)
      by_turn (ok u, (o', t)) e here rest =
          let (w, p, owned, there, covers) = here refl in
          ((w, p, owned, objects-Keeps (o.gvk, o.key) os t ne ∙ there, covers), rest t e)
      by_turn (err x, (o', t)) e here rest = absurd (ground (arith, e))
