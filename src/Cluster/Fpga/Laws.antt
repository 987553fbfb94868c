-- ===== src/Cluster/Fpga/Laws.antt =====
-- What a reconciliation of the N3000 cluster config does to the node resources and the status.
use openshift_operator.Base.{
  ◌≡◌, refl, String, List, [], ◌∷◌, eq_iff, none, some, arith, fun_ext, ap, Error, Result, ok, err,
  Exec,
}
use openshift_operator.Api.{Key, ClusterStatus, succeeded_sync}
use openshift_operator.Api.Fpga.{N3000ClusterNode}
use openshift_operator.Cluster.{IsLawful}
use openshift_operator.Cluster.Plan.{plan, wanted, plan-wanted}
use openshift_operator.Cluster.Sync.{
  update_or_create_node_config, delete_others, remove_old, update_all, sync_node_configs,
}
use openshift_operator.Cluster.Sync.Laws.{spec_at-sync}
use openshift_operator.Cluster.Fpga.{
  FpgaClient, N3000Cluster, N3000Node, default_n3000_config_name, node_spec,
  split_cluster_into_nodes, update_status, deploy, reconcile_cluster_config, reconcile,
}

module _ (C : FpgaClient) (ns : String) where
  abbrev pub expected : Key
  expected = record { namespace = ns; name = default_n3000_config_name }

  reconcile-expected :
      (s : C.State) (c : N3000Cluster)
      → (C.get_cluster expected s).0 ≡ ok c
      → reconcile C ns expected s ≡ deploy C ns c (C.get_cluster expected s).1
  unfolding reconcile reconcile_cluster_config
  reconcile-expected s c hc =
      ground (arith, eq_iff ns ns, eq_iff default_n3000_config_name default_n3000_config_name)

  -- Where the deployment returns no error, it has synchronised the nodes of the plan, and then
  -- reported success.
  deploy-ok :
      (s : C.State) (c : N3000Cluster) (nodes : List String)
      → (C.list_nodes s).0 ≡ ok nodes
      → (deploy C ns c s).0.error ≡ none
      → let cfgs =
          plan
            (λ (res : N3000ClusterNode). res.node_name)
            (node_spec c.spec)
            ns
            C.zero_status
            nodes
            c.spec.nodes in
        let status : ClusterStatus = record {
          sync_status = succeeded_sync;
          last_sync_error = "";
        } in
        ((sync_node_configs C cfgs (C.list_nodes s).1).0 ≡ ok tt)
        × ((deploy C ns c s).1
            ≡ (C.update_cluster_status
                (record c { status = status })
                (sync_node_configs C cfgs (C.list_nodes s).1).1).1)
  unfolding deploy update_status split_cluster_into_nodes sync_node_configs
  deploy-ok s c nodes hn h = (ground arith, ground arith)

module _ (C : FpgaClient) (L : IsLawful C) (ns : String) where
  open L use {spec_at, cluster_keeps, nodes_keeps, status_keeps}

  deploy-wanted :
      (s : C.State) (c : N3000Cluster) (nodes : List String) (j : Key)
      → (C.list_nodes s).0 ≡ ok nodes
      → (deploy C ns c s).0.error ≡ none
      → spec_at (deploy C ns c s).1 j
        ≡ wanted
            (λ (res : N3000ClusterNode). res.node_name)
            (node_spec c.spec)
            ns
            nodes
            c.spec.nodes
            j
            (spec_at s j)
  deploy-wanted s c nodes j hn h =
      let s1 : C.State = (C.list_nodes s).1 in
      let cfgs : List N3000Node =
        plan (λ (res : N3000ClusterNode). res.node_name) (node_spec c.spec) ns C.zero_status nodes
          c.spec.nodes in
      let done_status : ClusterStatus = record {
        sync_status = succeeded_sync;
        last_sync_error = "";
      } in
      ground (
        arith,
        deploy-ok C ns s c nodes hn h,
        nodes_keeps j s,
        spec_at-sync C L cfgs s1 j,
        plan-wanted (λ (res : N3000ClusterNode). res.node_name) (node_spec c.spec) ns C.zero_status
            nodes c.spec.nodes j (spec_at s j),
        status_keeps (record c { status = done_status }) j (sync_node_configs C cfgs s1).1,
      )

  -- After a reconciliation of the expected N3000Cluster that returns no error, each key holds what the
  -- config wants: in the operator's namespace the spec of the last entry for a node that carries the
  -- accelerator label, with the config's dry-run and drain flags, and nothing under the name of any
  -- other node, in any namespace.
  pub reconcile_n3000-wanted :
      (s : C.State) (c : N3000Cluster) (nodes : List String) (j : Key)
      → (C.get_cluster (expected C ns) s).0 ≡ ok c
      → (C.list_nodes (C.get_cluster (expected C ns) s).1).0 ≡ ok nodes
      → (reconcile C ns (expected C ns) s).0.error ≡ none
      → spec_at (reconcile C ns (expected C ns) s).1 j
        ≡ wanted
            (λ (res : N3000ClusterNode). res.node_name)
            (node_spec c.spec)
            ns
            nodes
            c.spec.nodes
            j
            (spec_at s j)
  reconcile_n3000-wanted s c nodes j hc hn h =
      rw (reconcile-expected C ns s c hc, ← cluster_keeps (expected C ns) j s)
        (deploy-wanted (C.get_cluster (expected C ns) s).1 c nodes j hn
          (rw (reconcile-expected C ns s c hc) at h))

-- The client with another way to write the status.
abbrev pub with_writer : (C : FpgaClient) → (N3000Cluster → Exec C.State (Unit {0})) → FpgaClient
with_writer C w = record C { update_cluster_status = w }

module _ (C : FpgaClient) (w : N3000Cluster → Exec C.State (Unit {0})) where
  delete_others-with_writer :
      (news ncs : List N3000Node)
      → delete_others (with_writer C w) news ncs ≡ delete_others C news ncs
  unfolding delete_others
  delete_others-with_writer news [] = refl
  delete_others-with_writer news (nc ∷ ncs) = rw (delete_others-with_writer news ncs)

  update_all-with_writer :
      (cfgs : List N3000Node) → update_all (with_writer C w) cfgs ≡ update_all C cfgs
  unfolding update_all update_or_create_node_config
  update_all-with_writer [] = refl
  update_all-with_writer (cfg ∷ cfgs) = rw (update_all-with_writer cfgs)

  remove_old-with_writer :
      (news : List N3000Node) → remove_old (with_writer C w) news ≡ remove_old C news
  unfolding remove_old
  remove_old-with_writer news = rw (fun_ext (delete_others-with_writer news))

  deploy_failed-status :
      (ns : String) (s : C.State) (c : N3000Cluster) (e : Error)
      → (deploy C ns c s).0.error ≡ some e
      → deploy (with_writer C w) ns c s ≡ deploy C ns c s
  unfolding deploy update_status split_cluster_into_nodes
  deploy_failed-status ns s c e h = listed (C.list_nodes s).0 refl
    where
      listed :
          (r : Result (List String))
          → (C.list_nodes s).0 ≡ r
          → deploy (with_writer C w) ns c s ≡ deploy C ns c s
      listed (err x) hn = ground arith
      listed (ok nodes) hn =
          let cfgs : List N3000Node =
            plan (λ (res : N3000ClusterNode). res.node_name) (node_spec c.spec) ns C.zero_status
              nodes c.spec.nodes in
          let s1 : C.State = (C.list_nodes s).1 in
          ground (
            arith,
            ap (λ (f : Exec C.State (Unit {0})). f s1) (remove_old-with_writer cfgs),
            ap (λ (f : Exec C.State (Unit {0})). f (remove_old C cfgs s1).1)
                (update_all-with_writer cfgs),
          )

  -- A reconciliation of the expected N3000Cluster that returns an error, after the config was read,
  -- has not written the status: it does the same whatever the write of the status would do.
  pub reconcile_failed-status :
      (ns : String) (s : C.State) (c : N3000Cluster) (e : Error)
      → (C.get_cluster (expected C ns) s).0 ≡ ok c
      → (reconcile C ns (expected C ns) s).0.error ≡ some e
      → reconcile (with_writer C w) ns (expected C ns) s ≡ reconcile C ns (expected C ns) s
  reconcile_failed-status ns s c e hc h =
      rw (reconcile-expected C ns s c hc, reconcile-expected (with_writer C w) ns s c hc)
        (deploy_failed-status ns (C.get_cluster (expected C ns) s).1 c e
          (rw (reconcile-expected C ns s c hc) at h))
