-- ===== src/Cluster/Sriov/Laws.antt =====
-- What a reconciliation of the SR-IOV FEC cluster config does to the node configs and the status.
use openshift_operator.Base.{
  ◌≡◌, refl, ◌≢◌, String, List, eq_iff, none, some, arith, Error, Result, ok, err, Option, done,
  Reconciled,
}
use openshift_operator.Api.{
  Key, ClusterStatus, succeeded_sync, failed_sync, ignored_sync, key_eq_of_fields,
}
use openshift_operator.Api.Sriov.{NodeConfig}
use openshift_operator.Cluster.{IsLawful}
use openshift_operator.Cluster.Plan.{wanted, plan-wanted, wanted_idem}
use openshift_operator.Cluster.Sync.{sync_node_configs}
use openshift_operator.Cluster.Sync.Laws.{spec_at-sync}
use openshift_operator.Cluster.Sriov.{
  SriovClient, ClusterConfig, NodeConfigObject, default_cluster_config_name, ignored_message,
  node_config_spec, render_node_configs, update_status, deploy, reconcile_cluster_config, reconcile,
}

-- The status goes with the error that is returned.
abbrev pub Tells : ClusterStatus → Option Error → Type 0
Tells st none = st ≡ record { sync_status = succeeded_sync; last_sync_error = "" }
Tells st (some e) = st.sync_status ≡ failed_sync

module _ (C : SriovClient) (ns : String) where
  abbrev pub expected : Key
  expected = record { namespace = ns; name = default_cluster_config_name }

  reconcile-expected :
      (s : C.State) (c : ClusterConfig)
      → (C.get_cluster expected s).0 ≡ ok c
      → reconcile C ns expected s ≡ deploy C ns c (C.get_cluster expected s).1
  unfolding reconcile reconcile_cluster_config
  reconcile-expected s c hc =
      ground (arith, eq_iff ns ns, eq_iff default_cluster_config_name default_cluster_config_name)

  reconcile-ignored :
      (req : Key) (s : C.State) (c : ClusterConfig)
      → (C.get_cluster req s).0 ≡ ok c
      → req ≢ expected
      → reconcile C ns req s
        ≡ update_status C ns c ignored_sync (ignored_message ns) done (C.get_cluster req s).1
  unfolding reconcile reconcile_cluster_config
  reconcile-ignored req s c hc hne = ground (
    arith,
    eq_iff req.namespace ns,
    eq_iff req.name default_cluster_config_name,
    key_eq_of_fields req expected,
  )

  -- The status that a reconciliation of the expected resource reports: what the last write to the
  -- API, at some state `t`, was.
  abbrev pub Reports : Reconciled × C.State → ClusterConfig → Type 0
  Reports out c =
      (t : C.State) × (status : ClusterStatus) × (out.1
        ≡ (C.update_cluster_status (record c { status = status }) t).1)
      × Tells status out.0.error

  deploy-Reports : (s : C.State) (c : ClusterConfig) → Reports (deploy C ns c s) c
  unfolding deploy update_status
  deploy-Reports s c = listed (C.list_nodes s).0 refl
    where
      synced :
          (nodes : List String)
          → (C.list_nodes s).0 ≡ ok nodes
          → (r : Result (Unit {0}))
          → (sync_node_configs C (render_node_configs C ns c.spec nodes) (C.list_nodes s).1).0 ≡ r
          → Reports (deploy C ns c s) c
      synced nodes hn (ok u) hs = (
        (sync_node_configs C (render_node_configs C ns c.spec nodes) (C.list_nodes s).1).1,
        record { sync_status = succeeded_sync; last_sync_error = "" },
        ground arith,
        ground arith,
      )
      synced nodes hn (err x) hs = (
        (sync_node_configs C (render_node_configs C ns c.spec nodes) (C.list_nodes s).1).1,
        record {
          sync_status = failed_sync;
          last_sync_error = "failed to create NodeConfigs - check logs";
        },
        ground arith,
        ground arith,
      )

      listed : (r : Result (List String)) → (C.list_nodes s).0 ≡ r → Reports (deploy C ns c s) c
      listed (ok nodes) hn =
          synced nodes hn
            (sync_node_configs C (render_node_configs C ns c.spec nodes) (C.list_nodes s).1).0 refl
      listed (err x) hn = (
        (C.list_nodes s).1,
        record {
          sync_status = failed_sync;
          last_sync_error = "nfd error: failed to obtain nodes with Intel accelerator - check logs";
        },
        ground arith,
        ground arith,
      )

  -- Once the expected cluster config was read, the last call of a reconciliation is a write of the
  -- config's status that is Succeeded with no text if no error is returned, and Failed if one is.
  -- The error of the write itself is ignored.
  pub reconcile-Reports :
      (s : C.State) (c : ClusterConfig)
      → (C.get_cluster expected s).0 ≡ ok c
      → Reports (reconcile C ns expected s) c
  reconcile-Reports s c hc =
      rw (reconcile-expected s c hc) (deploy-Reports (C.get_cluster expected s).1 c)

module _ (C : SriovClient) (L : IsLawful C) (ns : String) where
  open L use {spec_at, cluster_keeps, nodes_keeps, status_keeps}

  deploy-wanted :
      (s : C.State) (c : ClusterConfig) (nodes : List String) (j : Key)
      → (C.list_nodes s).0 ≡ ok nodes
      → (deploy C ns c s).0.error ≡ none
      → spec_at (deploy C ns c s).1 j
        ≡ wanted
            (λ (n : NodeConfig). n.node_name)
            (node_config_spec c.spec)
            ns
            nodes
            c.spec.nodes
            j
            (spec_at s j)
  unfolding deploy update_status render_node_configs
  deploy-wanted s c nodes j hn h =
      let s1 : C.State = (C.list_nodes s).1 in
      let cfgs : List NodeConfigObject = render_node_configs C ns c.spec nodes in
      let done_status : ClusterStatus = record {
        sync_status = succeeded_sync;
        last_sync_error = "";
      } in
      ground (
        arith,
        nodes_keeps j s,
        spec_at-sync C L cfgs s1 j,
        plan-wanted (λ (n : NodeConfig). n.node_name) (node_config_spec c.spec) ns C.zero_status
            nodes c.spec.nodes j (spec_at s j),
        status_keeps (record c { status = done_status }) j (sync_node_configs C cfgs s1).1,
      )

  -- After a reconciliation of the expected SriovFecClusterConfig that returns no error, each key holds
  -- what the config wants: in the operator's namespace the spec of the last entry for a node that
  -- carries the accelerator label, with the config's drain flag, and nothing under the name of any
  -- other node, in any namespace.
  pub reconcile-wanted :
      (s : C.State) (c : ClusterConfig) (nodes : List String) (j : Key)
      → (C.get_cluster (expected C ns) s).0 ≡ ok c
      → (C.list_nodes (C.get_cluster (expected C ns) s).1).0 ≡ ok nodes
      → (reconcile C ns (expected C ns) s).0.error ≡ none
      → spec_at (reconcile C ns (expected C ns) s).1 j
        ≡ wanted
            (λ (n : NodeConfig). n.node_name)
            (node_config_spec c.spec)
            ns
            nodes
            c.spec.nodes
            j
            (spec_at s j)
  reconcile-wanted s c nodes j hc hn h =
      rw (reconcile-expected C ns s c hc, ← cluster_keeps (expected C ns) j s)
        (deploy-wanted (C.get_cluster (expected C ns) s).1 c nodes j hn
          (rw (reconcile-expected C ns s c hc) at h))

  -- Where two reconciliations in a row return no error, and the second reads the spec and the nodes
  -- that the first read, the second leaves the spec at each key as it was.
  pub reconcile_twice :
      (s t : C.State) (c c' : ClusterConfig) (nodes : List String) (j : Key)
      → t ≡ (reconcile C ns (expected C ns) s).1
      → c'.spec ≡ c.spec
      → (C.get_cluster (expected C ns) s).0 ≡ ok c
      → (C.list_nodes (C.get_cluster (expected C ns) s).1).0 ≡ ok nodes
      → (reconcile C ns (expected C ns) s).0.error ≡ none
      → (C.get_cluster (expected C ns) t).0 ≡ ok c'
      → (C.list_nodes (C.get_cluster (expected C ns) t).1).0 ≡ ok nodes
      → (reconcile C ns (expected C ns) t).0.error ≡ none
      → spec_at (reconcile C ns (expected C ns) t).1 j ≡ spec_at t j
  reconcile_twice s t c c' nodes j et ec hc hn h hc' hn' h' = cc (
    reconcile-wanted s c nodes j hc hn h,
    reconcile-wanted t c' nodes j hc' hn' h',
    wanted_idem (λ (n : NodeConfig). n.node_name) (node_config_spec c.spec) ns nodes c.spec.nodes j
        (spec_at s j),
  )

  -- A config of another name or namespace, once read, is marked Ignored with the reason, no error is
  -- returned, and no node config changes.
  pub reconcile_ignored :
      (req : Key) (s : C.State) (c : ClusterConfig)
      → (C.get_cluster req s).0 ≡ ok c
      → req ≢ expected C ns
      → let status : ClusterStatus = record {
        sync_status = ignored_sync;
        last_sync_error = ignored_message ns;
      } in
        ((reconcile C ns req s).0 ≡ done)
        × ((reconcile C ns req s).1
            ≡ (C.update_cluster_status (record c { status = status }) (C.get_cluster req s).1).1)
        × ((j : Key) → spec_at (reconcile C ns req s).1 j ≡ spec_at s j)
  unfolding update_status
  reconcile_ignored req s c hc hne =
      let status : ClusterStatus = record {
        sync_status = ignored_sync;
        last_sync_error = ignored_message ns;
      } in
      let s1 : C.State = (C.get_cluster req s).1 in
      rw (reconcile-ignored C ns req s c hc hne) (
        ground arith,
        ground arith,
        λ j.
            ground (arith, status_keeps (record c { status = status }) j s1, cluster_keeps req j s),
      )
