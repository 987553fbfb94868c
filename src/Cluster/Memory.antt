-- ===== src/Cluster/Memory.antt =====
-- An API server in memory, which shows that what the controllers assume of the Kubernetes API can
-- be met. It stands for no code of the repository.
use openshift_operator.Base.{
  ◌≡◌, refl, ◌≢◌, ◌↔◌, true, String, List, [], ◌∷◌, Option, none, some, arith, ap, Error,
  is_not_found, ok, err, not_found, if◌then◌else◌, Exec,
}
use openshift_operator.Api.{Key, key_eq, key_eq_iff, Object, ClusterStatus}
use openshift_operator.Cluster.{Client, IsLawful, has_key}

pub record Server (CSpec NSpec NStatus : Type 0) : Type 0 where
  pub cluster : Object CSpec ClusterStatus
  pub nodes : List String
  pub objects : List (Object NSpec NStatus)

module _ {NSpec NStatus : Type 0} where
  abbrev pub find : Key → List (Object NSpec NStatus) → Option (Object NSpec NStatus)
  find k [] = none
  find k (o ∷ os) = if key_eq o.key k then some o else find k os

  abbrev pub without : Key → List (Object NSpec NStatus) → List (Object NSpec NStatus)
  without k [] = []
  without k (o ∷ os) = let rest = without k os in if key_eq o.key k then rest else o ∷ rest

  abbrev pub spec_of : Option (Object NSpec NStatus) → Option NSpec
  spec_of none = none
  spec_of (some o) = some o.spec

  find-without :
      (k j : Key) (os : List (Object NSpec NStatus))
      → find j (without k os) ≡ (if key_eq k j then none else find j os)
  find-without k j [] = ground arith
  find-without k j (o ∷ os) =
      ground (arith, find-without k j os, key_eq_iff o.key k, key_eq_iff o.key j, key_eq_iff k j)

  has_key-find :
      (k : Key) (os : List (Object NSpec NStatus))
      → (has_key k os ≡ true) ↔ (spec_of (find k os) ≢ none)
  unfolding has_key
  has_key-find k [] = ground arith
  has_key-find k (o ∷ os) = ground (arith, has_key-find k os)

  find-key :
      (k : Key) (os : List (Object NSpec NStatus)) (o : Object NSpec NStatus)
      → find k os ≡ some o
      → o.key ≡ k
  find-key k [] o h = ground arith
  find-key k (p ∷ os) o h = ground (arith, find-key k os o, key_eq_iff p.key k)

  pub put_lem :
      (o : Object NSpec NStatus) (os : List (Object NSpec NStatus)) (j : Key)
      → spec_of (find j (o ∷ without o.key os))
        ≡ (if key_eq o.key j then some o.spec else spec_of (find j os))
  put_lem o os j = ground (arith, find-without o.key j os)

  pub remove_lem :
      (o : Object NSpec NStatus) (os : List (Object NSpec NStatus)) (j : Key)
      → spec_of (find j (without o.key os)) ≡ (if key_eq o.key j then none else spec_of (find j os))
  remove_lem o os j = ground (arith, find-without o.key j os)

module _ {CSpec NSpec NStatus : Type 0} (zero : NStatus) where
  abbrev pub read : Key → Exec (Server CSpec NSpec NStatus) (Object NSpec NStatus)
  read k s = elim (find k s.objects) [
    | none ↦ (err (not_found "not found"), s)
    | some o ↦ (ok o, s)
  ]

  abbrev pub put : Object NSpec NStatus → Exec (Server CSpec NSpec NStatus) (Unit {0})
  put o s = (ok tt, record s { objects = o ∷ without o.key s.objects })

  abbrev pub remove : Object NSpec NStatus → Exec (Server CSpec NSpec NStatus) (Unit {0})
  remove o s = (ok tt, record s { objects = without o.key s.objects })

  abbrev pub memory : Client CSpec NSpec NStatus
  memory = record {
    State = Server CSpec NSpec NStatus;
    get_cluster = λ k s.
        if key_eq s.cluster.key k then (ok s.cluster, s) else (err (not_found "not found"), s);
    update_cluster_status = λ c s. (ok tt, record s { cluster = c });
    list_nodes = λ s. (ok s.nodes, s);
    get = read;
    list = λ s. (ok s.objects, s);
    create = put;
    update = put;
    delete = remove;
    zero_status = zero;
  }

  pub read_lem :
      (k : Key) (s : Server CSpec NSpec NStatus) (o : Object NSpec NStatus)
      → (read k s).0 ≡ ok o
      → (spec_of (find k s.objects) ≡ some o.spec) × (o.key ≡ k)
  read_lem k s o h = ground (arith, find-key k s.objects o)

  pub read_keeps : (k : Key) (s : Server CSpec NSpec NStatus) → (read k s).1 ≡ s
  read_keeps k s = ground arith

  pub list_lem :
      (s : Server CSpec NSpec NStatus) (os : List (Object NSpec NStatus)) (k : Key)
      → (memory.list s).0 ≡ ok os
      → (has_key k os ≡ true) ↔ (spec_of (find k s.objects) ≢ none)
  list_lem s os k h = ground (arith, has_key-find k s.objects)

  pub list_fails :
      (s : Server CSpec NSpec NStatus) (e : Error) (k : Key)
      → (memory.list s).0 ≡ err e
      → is_not_found e ≡ true
      → spec_of (find k s.objects) ≡ none
  list_fails s e k h = ground arith

  pub get_cluster_keeps :
      (k : Key) (s : Server CSpec NSpec NStatus) → (memory.get_cluster k s).1 ≡ s
  get_cluster_keeps k s = ground arith

  abbrev pub memory-IsLawful : IsLawful memory
  memory-IsLawful = record {
    spec_at = λ s k. spec_of (find k s.objects);
    get_ok = read_lem;
    get_keeps = λ k s j.
        ap (λ (t : Server CSpec NSpec NStatus). spec_of (find j t.objects)) (read_keeps k s);
    list_ok = list_lem;
    list_missing = list_fails;
    list_keeps = λ s j. refl;
    create_ok = λ o s j h. put_lem o s.objects j;
    update_ok = λ o s j h. put_lem o s.objects j;
    delete_ok = λ o s j h. remove_lem o s.objects j;
    cluster_keeps = λ k j s.
        ap (λ (t : Server CSpec NSpec NStatus). spec_of (find j t.objects)) (get_cluster_keeps k s);
    nodes_keeps = λ j s. refl;
    status_keeps = λ c j s. refl;
  }
