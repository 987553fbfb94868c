-- ===== src/Lib.antt =====
-- The two operators for Intel accelerators on OpenShift, N3000 (FPGA cards) and sriov-fec (SR-IOV
-- forward error correction), as models of their Go code with theorems about them.
--
-- The program. In each operator a cluster controller (N3000/controllers, sriov-fec/controllers)
-- turns one cluster resource into a resource for each node that carries an accelerator, and a daemon
-- on each node (N3000/pkg/daemon, sriov-fec/pkg/daemon) carries out the resource of its node. A
-- daemon does its work through the drain helper (common/pkg/drainhelper), which takes a lease, so
-- that one node at a time is drained, runs the work between a drain and an uncordon, and gives the
-- lease back.
--
-- The labeler, which is a program of its own, puts the label on the nodes with an accelerator by
-- which the cluster controllers find them. The assets (common/pkg/assets) are the objects that an
-- operator deploys from templates when it starts, among them the labeler and the daemons, and the
-- exporter (prometheus_fpgainfo_exporter) gives Prometheus what the command fpgainfo says of the
-- cards.
--
-- How code is modelled. A function that may fail and changes something outside is of type `Exec S
-- A`, `S → Result A × S`: what was done before an error stays done. Go's `error` is the data type
-- `Error` of Base/Effects, which keeps the kinds that the code tells apart. Everything that is not
-- in the repository is a parameter, a record of calls over an unknown state, and a theorem that
-- relies on how such calls behave takes that as a second record of laws: `Client` and `IsLawful`
-- (Kubernetes API) for the cluster controllers, `Host` and `IsLawful` (API, kubectl's drain,
-- client-go's leader election) for the drain helper, with `IsNode` for what a drain does to the
-- node, `LeavesAlone` for what it does not touch, and `Elects` and `HasLease` for the checks of
-- the election and its lease, `Machine` (files, commands, PCI listing) with `HasDrivers`,
-- `HasVfs`, `HasKargs`, `HasFiles`, `Removes`, `HasSysfs` and `ReadsOnly` for a node, `Daemon`
-- with `LeavesBindings` for the reconciler of a node, `World` with `HasNodes` for the labeler,
-- `Nvm` for the tool of the network cards, `Node` with `Files` and `Logs`, `FilesKeep` and
-- `ApiKeeps` and `Reconciler` for the daemon of N3000, `Manager` with `IsCluster` for the assets,
-- `Env` for the exporter, `Platform` for the main programs of the operators and `Libraries` for
-- those of the daemons, with `HasN3000Nodes` and `HasNodeConfigs`, and `Floats` for float64. Each
-- of these laws has an instance in memory, at which the theorems are applied. Go's regular
-- expressions are modelled: Regexp has a backtracking search for sequences of character classes
-- with groups, which is all that the program uses.
--
-- The files.
--   Base       shared names, Boolean tests, lists, errors and effects, texts (Base/Text), steps that
--              keep a part of the state (Base/Frame), strings.Split and strconv (Base/Split,
--              Base/Integers), maps (Base/Maps)
--   Regexp     Go's regular expressions, as far as the program uses them
--   Api        the custom resources of N3000/api/v1 and sriov-fec/api/v1
--   Cluster    both cluster controllers. Sync and Plan are what they have in common: syncNodeConfigs,
--              updateOrCreateNodeConfig and removeOldNodes, and renderNodeConfigs and
--              splitClusterIntoNodes; Sriov and Fpga are the two Reconcile functions, with their
--              theorems in the Laws below them
--   Drain      common/pkg/drainhelper/drainhelper.go: run is Run, on_started_leading its callback,
--              cordon_and_drain and uncordon the two retried steps, Settings is NewDrainHelper; Retry
--              and Leading have the theorems on Run, Keeping what it leaves alone, Refused what it does
--              where no elector can be made; Captured is the helper over a closure's variables
--   Assets     common/pkg/assets: asset.go and Deploy of manager.go; Templates is what is loaded,
--              Deploying and Loading have the theorems on Deploy and LoadAndDeploy
--   Fec        sriov-fec/pkg/daemon. Devices, MasterBus and Apply are node_management.go, Queues is
--              bbdevconfig.go, Kernel is kernel_management.go, Inventory is inventory.go, Reconcile is
--              daemon.go, Setup is how its reconciler is made; exec_cmd of common.go stands in Fec
--              itself; below Apply, Facts and Binding are what the steps leave alone, Configured and
--              Applied what they have configured; below Reconcile, Reports and Succeeds are about a
--              success, Errors about a configuration without a drain, and Settled about the requests
--              after a condition was written
--   Fortville  N3000/pkg/daemon/fortvillemanager.go (flash_mac is flashMac, with power_cycle and
--              append_bmc) and deviceupdate.go
--   N3000      N3000/pkg/daemon: Images is common.go, Bmc, Temperature and Program are fpgamanager.go,
--              Nics and Flash are the rest of fortvillemanager.go, Reconcile is daemon.go; below each
--              of them Laws has its theorems, Program/Commands those on the commands that are run, and
--              Reconcile/Working and Succeeds those on how a flashing ends
--   Labeler    labeler/main.go; Config is LoadDiscoveryConfig of common/pkg/utils/utils.go
--   Exporter   prometheus_fpgainfo_exporter/main.go; Collect is what it sends
--   Programs   the main functions. Operators is N3000/main.go and sriov-fec/main.go, whose init is Names;
--              Daemons is cmd/daemon/main.go of both and main of labeler/main.go, Exporting is main of
--              the exporter. `or_exit` is os.Exit(1) after an error
--
-- Bounds. Numbers that the resources bound below by zero are natural numbers. The value that
-- enableMasterBus reads is an int64, kept below 2 ^ 64; sixteen hexadecimal digits are enough for
-- it. The durations of the drain helper are int64 values in nanoseconds, with wrap-around
-- (wrap_int64 of Base/Integers). The retries of the drain helper are five, as in the code. The loop
-- of flashMac is given two turns, which are enough. No other loop has a bound: each goes over a
-- list. A leader election that goes on is the outcome still_leading of Run, and waiting of
-- Reconcile: that a call does not return is a value of the model.
--
-- Not modelled: the command line, the logger and the scheme of the main programs, the text of Go's
-- panics, the set-up of the managers but for the filters of events; generated deep copies
-- (zz_generated.deepcopy.go), which copy field by field, and the registration of the types with a
-- scheme (groupversion_info.go), which only calls the libraries; log lines, also those of the
-- drainer; contexts, except for the one of the leader election; the resource version of objects but
-- in the assets; the HTTP server of the exporter. Texts are sequences
-- of characters, where Go has bytes; strings.ToUpper and strings.ToLower are those of the ASCII
-- letters.
pub mod Base
pub mod Api
pub mod Cluster
pub mod Drain
pub mod Regexp
pub mod Assets
pub mod Fec
pub mod Fortville
pub mod N3000
pub mod Labeler
pub mod Exporter
pub mod Programs
