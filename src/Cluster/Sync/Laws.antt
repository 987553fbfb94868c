-- ===== src/Cluster/Sync/Laws.antt =====
-- What a synchronisation leaves at each key.
use openshift_operator.Base.{
  ◌≡◌, refl, String, List, [], ◌∷◌, eq_iff, Option, none, some, arith, Result, ok, err,
  if◌then◌else◌, not, ◌&&◌, map, contains, or_else,
}
use openshift_operator.Api.{Key, key_eq, key_eq_iff, Object}
use openshift_operator.Cluster.{Client, IsLawful, has_key}
use openshift_operator.Cluster.Sync.{
  update_or_create_node_config, is_kept, delete_others, remove_old, update_all, sync_node_configs,
}

abbrev pub names : {NSpec NStatus : Type 0} → List (Object NSpec NStatus) → List String
names = map (λ o. o.key.name)

is_kept-eq-contains :
    {NSpec NStatus : Type 0} (nc : Object NSpec NStatus) (news : List (Object NSpec NStatus))
    → is_kept nc news ≡ contains (names news) nc.key.name
unfolding is_kept contains
is_kept-eq-contains nc [] = refl
is_kept-eq-contains nc (new ∷ news) = ground (
  arith,
  eq_iff nc.key.name new.key.name,
  eq_iff new.key.name nc.key.name,
  is_kept-eq-contains nc news,
)

-- The spec of the last new resource at a key: a later one overwrites an earlier one.
unfoldable pub last_spec :
    {NSpec NStatus : Type 0} → Key → List (Object NSpec NStatus) → Option NSpec
last_spec j [] = none
last_spec j (cfg ∷ cfgs) =
    or_else (last_spec j cfgs) (if key_eq cfg.key j then some cfg.spec else none)

module _ {CSpec NSpec NStatus : Type 0} (C : Client CSpec NSpec NStatus) (L : IsLawful C) where
  open L use {
    spec_at, get_ok, get_keeps, list_ok, list_missing, list_keeps, create_ok, update_ok, delete_ok,
  }

  pub spec_at-update_or_create :
      (cfg : Object NSpec NStatus) (s : C.State) (j : Key)
      → (update_or_create_node_config C cfg s).0 ≡ ok tt
      → spec_at (update_or_create_node_config C cfg s).1 j
        ≡ (if key_eq cfg.key j then some cfg.spec else spec_at s j)
  unfolding update_or_create_node_config
  spec_at-update_or_create cfg s j h = go (C.get cfg.key s).0 refl
    where
      go :
          (r : Result (Object NSpec NStatus))
          → (C.get cfg.key s).0 ≡ r
          → spec_at (update_or_create_node_config C cfg s).1 j
            ≡ (if key_eq cfg.key j then some cfg.spec else spec_at s j)
      go (ok prev) e = ground (
        arith,
        get_ok cfg.key s prev,
        get_keeps cfg.key s j,
        update_ok (record prev { spec = cfg.spec }) (C.get cfg.key s).1 j,
      )
      go (err x) e = ground (arith, get_keeps cfg.key s j, create_ok cfg (C.get cfg.key s).1 j)

  pub spec_at-delete_others :
      (news ncs : List (Object NSpec NStatus)) (s : C.State) (j : Key)
      → (delete_others C news ncs s).0 ≡ ok tt
      → spec_at (delete_others C news ncs s).1 j
        ≡ (if has_key j ncs && not (contains (names news) j.name) then none else spec_at s j)
  unfolding delete_others has_key
  spec_at-delete_others news [] s j h = refl
  spec_at-delete_others news (nc ∷ ncs) s j h = ground (
    arith,
    key_eq_iff nc.key j,
    is_kept-eq-contains nc news,
    delete_ok nc s j,
    spec_at-delete_others news ncs s j,
    spec_at-delete_others news ncs (C.delete nc s).1 j,
  )

  pub spec_at-remove_old :
      (news : List (Object NSpec NStatus)) (s : C.State) (j : Key)
      → (remove_old C news s).0 ≡ ok tt
      → spec_at (remove_old C news s).1 j
        ≡ (if contains (names news) j.name then spec_at s j else none)
  unfolding remove_old
  spec_at-remove_old news s j h = go (C.list s).0 refl
    where
      go :
          (r : Result (List (Object NSpec NStatus)))
          → (C.list s).0 ≡ r
          → spec_at (remove_old C news s).1 j
            ≡ (if contains (names news) j.name then spec_at s j else none)
      go (ok os) e =
          ground
            (arith, list_ok s os j, list_keeps s j, spec_at-delete_others news os (C.list s).1 j)
      go (err x) e =
          ground (
            arith,
            list_missing s x j,
            list_keeps s j,
            spec_at-delete_others news [] (C.list s).1 j,
          )

  pub spec_at-update_all :
      (cfgs : List (Object NSpec NStatus)) (s : C.State) (j : Key)
      → (update_all C cfgs s).0 ≡ ok tt
      → spec_at (update_all C cfgs s).1 j ≡ or_else (last_spec j cfgs) (spec_at s j)
  unfolding update_all last_spec
  spec_at-update_all [] s j h = refl
  spec_at-update_all (cfg ∷ cfgs) s j h = ground (
    arith,
    spec_at-update_or_create cfg s j,
    spec_at-update_all cfgs (update_or_create_node_config C cfg s).1 j,
  )

  pub spec_at-sync :
      (cfgs : List (Object NSpec NStatus)) (s : C.State) (j : Key)
      → (sync_node_configs C cfgs s).0 ≡ ok tt
      → spec_at (sync_node_configs C cfgs s).1 j
        ≡ or_else (last_spec j cfgs) (if contains (names cfgs) j.name then spec_at s j else none)
  unfolding sync_node_configs
  spec_at-sync cfgs s j h =
      ground (arith, spec_at-remove_old cfgs s j, spec_at-update_all cfgs (remove_old C cfgs s).1 j)
