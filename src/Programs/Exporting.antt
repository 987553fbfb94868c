-- ===== src/Programs/Exporting.antt =====
-- prometheus_fpgainfo_exporter/main.go: `Describe` and `main`. The registry and the HTTP
-- server are parameters.
use openshift_operator.Base.{List, [], ◌∷◌, none, some, Exec, handle}
use openshift_operator.Exporter.Collect.{
  Env, Desc, FpgaInfoCollector, run_fpga_info, new_fpga_info_collector,
}
use openshift_operator.Programs.{Ended, panicked, exited, or_exit, finish}

unfoldable pub describe : FpgaInfoCollector → List Desc
describe c =
    c.temperature_desc ∷ c.power_desc ∷ c.current_desc ∷ c.voltage_desc ∷ c.qualitative_desc ∷ []

module _ (E : Env) (register : List Desc → Exec E.State (Unit {0}))
    (listen_and_serve : Exec E.State (Unit {0})) where
  open E use {State}

  -- `MustRegister`, which panics where the registry refuses the collector, and what follows it.
  unfoldable pub serve : FpgaInfoCollector → State → Ended × State
  serve c =
      handle (register (describe c)) (λ _. or_exit listen_and_serve (λ _. finish))
        (λ e s. (panicked, s))

  -- A collector that is nil has no descriptions: `Describe` panics.
  unfoldable pub exporter_main : State → Ended × State
  exporter_main =
      handle (run_fpga_info E "bmc")
        (λ _ s.
          let (collector, s') = new_fpga_info_collector E s in
          elim collector [ none ↦ (panicked, s') | some c ↦ serve c s' ])
        (λ e s. (exited 1, s))
