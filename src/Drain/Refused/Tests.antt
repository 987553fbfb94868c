-- ===== src/Drain/Refused/Tests.antt =====
-- A cluster in memory whose lease another node holds, and the theorems about the lease at it.
use openshift_operator.Base.{
  ◌≡◌, refl, true, false, pos, ◌*ℤ◌, ltz, parse_signed, String, some, Error, failure, ok, pure,
  raise,
}
use openshift_operator.Drain.{Host, stopped, returned, release, run}
use openshift_operator.Drain.Memory.{backoff}
use openshift_operator.Drain.Settings.{new_drain_helper}
use openshift_operator.Drain.Settings.Laws.{is_valid, fits, new_drain_helper-is_valid}
use openshift_operator.Drain.Refused.{Elects, HasLease, run_refused}

abbrev getenv : String → String
getenv name = "10"

abbrev too_short : Error
too_short = failure "leaseDuration must be greater than renewDeadline"

-- The state is the holder of the lease.
abbrev leased : Host
leased = record {
  State = String;
  get_node = pure tt;
  run_cordon_or_uncordon = λ b. pure tt;
  run_node_drain = pure tt;
  exponential_backoff = backoff;
  new_leader_elector = raise too_short;
  elector_run = λ f s. let (left, s') = f s in (stopped left, s');
  lease_get = pure tt;
  lease_clear = λ s. (ok tt, "");
}

abbrev leased-HasLease : HasLease leased
leased-HasLease = record { holder = λ s. s; cleared = λ s h. refl }

abbrev leased-Elects : Elects leased (new_drain_helper getenv "node1" "vran").leader_election_config
leased-Elects = record { refused = λ s h. (too_short, refl) }

new_drain_helper-is_valid_example :
    ((new_drain_helper getenv "node1" "vran").leader_election_config.lease_duration
      ≡ pos 10000000000)
    × (is_valid (new_drain_helper getenv "node1" "vran").leader_election_config ≡ false)
unfolding parse_signed fits ◌*ℤ◌ ltz
new_drain_helper-is_valid_example =
    new_drain_helper-is_valid getenv "node1" "vran" (pos 10) refl refl

run_refused_example :
    ((e : Error) × (run leased (λ s. (true, s)) true "node2"
        ≡ (returned (some e), release leased "node2")))
    × (release leased "node2" ≡ "")
unfolding parse_signed fits ltz release
run_refused_example =
    run_refused leased leased-HasLease getenv "node1" "vran" (pos 10) leased-Elects refl refl refl
      (λ s. (true, s)) true "node2" "node2" "" refl refl
