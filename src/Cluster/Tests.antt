-- ===== src/Cluster/Tests.antt =====
-- Runs of the two cluster controllers over the API server in memory, and the theorems at them.
use openshift_operator.Base.{
  ◌≡◌, refl, ap, ◌≢◌, true, false, String, [], ◌∷◌, none, some, arith, Reconciled, err, failure,
  eq_iff, contains, Exec,
}
use openshift_operator.Api.{Key, key_eq, ClusterStatus, in_progress_sync}
use openshift_operator.Api.Sriov.{NodeConfig}
use openshift_operator.Cluster.{IsLawful}
use openshift_operator.Cluster.Sync.{
  update_or_create_node_config, is_kept, delete_others, remove_old, update_all, sync_node_configs,
}
use openshift_operator.Cluster.Plan.{plan, last_entry, wanted}
use openshift_operator.Cluster.Memory.{memory, memory-IsLawful}
use openshift_operator.Cluster.Sriov.{node_config_spec, ignored_message}
use openshift_operator.Cluster.Sriov
use openshift_operator.Cluster.Sriov.Laws as SriovLaws
use openshift_operator.Cluster.Fpga
use openshift_operator.Cluster.Fpga.Laws as FpgaLaws

abbrev no_status : ClusterStatus
no_status = record { sync_status = in_progress_sync; last_sync_error = "" }

abbrev fec : Sriov.SriovClient
fec = memory (record { conditions = []; inventory = record { sriov_accelerators = [] } })

abbrev entry : String → NodeConfig
entry n = record { node_name = n; physical_functions = [] }

abbrev fec_config : String → Sriov.ClusterConfig
fec_config n = record {
  key = record { namespace = "ops"; name = n };
  generation = 1;
  spec = record { nodes = entry "n1" ∷ entry "n3" ∷ []; drain_skip = true };
  status = no_status;
}

abbrev fec_object : String → Sriov.NodeConfigObject
fec_object n = record {
  key = record { namespace = "ops"; name = n };
  generation = 1;
  spec = record { physical_functions = []; drain_skip = false };
  status = fec.zero_status;
}

-- Two nodes with an accelerator, one of them with an old resource, and a resource of a third.
abbrev fec_server : String → fec.State
fec_server n = record {
  cluster = fec_config n;
  nodes = "n1" ∷ "n2" ∷ [];
  objects = fec_object "n2" ∷ fec_object "n4" ∷ [];
}

abbrev at : String → Key
at n = record { namespace = "ops"; name = n }

fec_run : Key → fec.State → Reconciled × fec.State
unfolding Sriov.reconcile Sriov.reconcile_cluster_config Sriov.deploy Sriov.update_status
    Sriov.render_node_configs node_config_spec plan sync_node_configs remove_old delete_others
    is_kept update_all update_or_create_node_config key_eq contains last_entry wanted
fec_run = Sriov.reconcile fec "ops"

-- Not the expected name.
other_key : at "other" ≢ at "config"
other_key e = ground (arith, eq_iff "other" "config", ap (λ (k : Key). k.name) e)

fec_removes :
    (fec_run (at "config") (fec_server "config")).1.objects
    ≡ record (fec_object "n1") {
      generation = 0;
      spec = record { physical_functions = []; drain_skip = true };
    }
      ∷ []
unfolding fec_run
fec_removes = refl

abbrev fec_lawful : IsLawful fec
fec_lawful = memory-IsLawful fec.zero_status

abbrev started : fec.State
started = fec_server "config"

fec_wanted_example :
    fec_lawful.spec_at (fec_run (at "config") started).1 (at "n1")
    ≡ some (record { physical_functions = []; drain_skip = true })
unfolding fec_run
fec_wanted_example =
    SriovLaws.reconcile-wanted fec fec_lawful "ops" started (fec_config "config") ("n1" ∷ "n2" ∷ [])
      (at "n1") refl refl refl

fec_twice_example :
    let t = (fec_run (at "config") started).1 in
    fec_lawful.spec_at (fec_run (at "config") t).1 (at "n1") ≡ fec_lawful.spec_at t (at "n1")
unfolding fec_run
fec_twice_example =
    let t : fec.State = (fec_run (at "config") started).1 in
    SriovLaws.reconcile_twice fec fec_lawful "ops" started t (fec_config "config") t.cluster
      ("n1" ∷ "n2" ∷ []) (at "n1") refl refl refl refl refl refl refl refl

fec-Reports_example :
    SriovLaws.Reports fec "ops" (fec_run (at "config") started) (fec_config "config")
unfolding fec_run
fec-Reports_example = SriovLaws.reconcile-Reports fec "ops" started (fec_config "config") refl

-- The N3000 controller.
abbrev fpga : Fpga.FpgaClient
fpga = memory (record { conditions = []; fpga = []; fortville = [] })

abbrev fpga_config : Fpga.N3000Cluster
fpga_config = record {
  key = at "n3000";
  generation = 1;
  spec = record {
    nodes = record { node_name = "n1"; fpga = some []; fortville = none } ∷ [];
    dry_run = true;
    drain_skip = false;
  };
  status = no_status;
}

abbrev fpga_server : fpga.State
fpga_server = record { cluster = fpga_config; nodes = "n1" ∷ []; objects = [] }

-- A client to which no resource can be added.
abbrev read_only : Fpga.FpgaClient
read_only = record fpga { create = λ o s. (err (failure "forbidden"), s) }

fpga_run : (C : Fpga.FpgaClient) → Key → C.State → Reconciled × C.State
unfolding Fpga.reconcile Fpga.reconcile_cluster_config Fpga.deploy Fpga.update_status
    Fpga.split_cluster_into_nodes Fpga.node_spec plan sync_node_configs remove_old delete_others
    is_kept update_all update_or_create_node_config key_eq contains last_entry wanted
fpga_run C = Fpga.reconcile C "ops"

fpga_wanted_example :
    (memory-IsLawful fpga.zero_status).spec_at (fpga_run fpga (at "n3000") fpga_server).1 (at "n1")
    ≡ some (record { fpga = some []; fortville = none; dry_run = true; drain_skip = false })
unfolding fpga_run
fpga_wanted_example =
    FpgaLaws.reconcile_n3000-wanted fpga (memory-IsLawful fpga.zero_status) "ops" fpga_server
      fpga_config ("n1" ∷ []) (at "n1") refl refl refl

abbrev lost : Fpga.N3000Cluster → Exec fpga.State (Unit {0})
lost c s = (err (failure "lost"), s)

fpga_failed_example :
    fpga_run (FpgaLaws.with_writer read_only lost) (at "n3000") fpga_server
    ≡ fpga_run read_only (at "n3000") fpga_server
unfolding fpga_run
fpga_failed_example =
    FpgaLaws.reconcile_failed-status read_only lost "ops" fpga_server fpga_config
      (failure "forbidden") refl refl
