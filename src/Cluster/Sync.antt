-- ===== src/Cluster/Sync.antt =====
-- What the two controllers do alike with the node resources: N3000/controllers/
-- n3000cluster_controller.go and sriov-fec/controllers/sriovfecclusterconfig_controller.go,
-- `updateOrCreateNodeConfig`, `removeOldNodes` and `removeOldNodeConfigs`, `syncNodeConfigs`.
pub mod Laws
use openshift_operator.Base.{
  Bool, false, List, [], ◌∷◌, ◌==◌, ◌||◌, is_not_found, Exec, pure, raise, handle, ◌>>◌,
  if◌then◌else◌,
}
use openshift_operator.Api.{Object}
use openshift_operator.Cluster.{Client}

module _ {NSpec NStatus : Type 0} where
  -- The inner loop of the removal, which compares names and no namespaces.
  unfoldable pub is_kept : Object NSpec NStatus → List (Object NSpec NStatus) → Bool
  is_kept nc [] = false
  is_kept nc (new ∷ news) = nc.key.name == new.key.name || is_kept nc news

module _ {CSpec NSpec NStatus : Type 0} (C : Client CSpec NSpec NStatus) where
  -- A resource that is there gets the new spec and keeps the rest; one that is not is created.
  unfoldable pub update_or_create_node_config : Object NSpec NStatus → Exec C.State (Unit {0})
  update_or_create_node_config node_cfg =
      handle (C.get node_cfg.key) (λ prev. C.update (record prev { spec = node_cfg.spec }))
        (λ e. if is_not_found e then C.create node_cfg else raise e)

  -- The loop over the listed resources.
  unfoldable pub delete_others :
      List (Object NSpec NStatus) → List (Object NSpec NStatus) → Exec C.State (Unit {0})
  delete_others news [] = pure tt
  delete_others news (nc ∷ ncs) =
      let rest = delete_others news ncs in if is_kept nc news then rest else (C.delete nc >> rest)

  unfoldable pub remove_old : List (Object NSpec NStatus) → Exec C.State (Unit {0})
  remove_old news =
      handle C.list (delete_others news)
        (λ e. if is_not_found e then delete_others news [] else raise e)

  unfoldable pub update_all : List (Object NSpec NStatus) → Exec C.State (Unit {0})
  update_all [] = pure tt
  update_all (cfg ∷ cfgs) = update_or_create_node_config cfg >> update_all cfgs

  unfoldable pub sync_node_configs : List (Object NSpec NStatus) → Exec C.State (Unit {0})
  sync_node_configs cfgs = remove_old cfgs >> update_all cfgs
