-- ===== src/Drain/Refused.antt =====
-- `Run` where the lease of the settings is too short for a leader election.
mod Tests
use openshift_operator.Base.{
  ◌≡◌, refl, sym, ap, ◌∙◌, Bool, true, false, ℤ, pos, ltz, parse_signed, String, some, Error,
  Result, ok, err, handle, branch,
}
use openshift_operator.Drain.{Host, returned, release, run}
use openshift_operator.Drain.Settings.{LeaderElectionConfig, DrainHelper, new_drain_helper}
use openshift_operator.Drain.Settings.Laws.{is_valid, fits, new_drain_helper-is_valid}

-- `NewLeaderElector` returns an error and does nothing else where its configuration is not valid.
pub record Elects (H : Host) (c : LeaderElectionConfig) : Type 0 where
  pub refused :
      (s : H.State) → is_valid c ≡ false → (e : Error) × (H.new_leader_elector s ≡ (err e, s))

-- The holder of the lease in the cluster, which an Update without an error has set.
pub record HasLease (H : Host) : Type 0 where
  pub holder : H.State → String
  pub cleared : (s : H.State) → (H.lease_clear s).0 ≡ ok tt → holder (H.lease_clear s).1 ≡ ""

module _ (H : Host) (Z : HasLease H) where
  open H use {State}
  open Z use {holder}

  -- Where the variable of the lease duration is a number of seconds that is not more than 15, and whose
  -- nanoseconds a 64-bit integer holds, `Run` neither drains the node nor calls the worker, with a
  -- drain and without one: it returns an error, and it has cleared the holder of the lease, whichever
  -- node this was, if the lease can be read and written.
  pub run_refused :
      (getenv : String → String) (node_name namespace : String) (z : ℤ)
      → Elects H (new_drain_helper getenv node_name namespace).leader_election_config
      → parse_signed (getenv "LEASE_DURATION_SECONDS") ≡ some z
      → fits z ≡ true
      → ltz (pos 15) z ≡ false
      → (f : State → Bool × State) (drain : Bool) (s t u : State) → H.lease_get s ≡ (ok tt, t)
      → H.lease_clear t ≡ (ok tt, u)
      → ((e : Error) × (run H f drain s ≡ (returned (some e), u))) × (holder u ≡ "")
  unfolding run release
  run_refused getenv node_name namespace z E text fit short f drain s t u read cleared =
      let (exact, valid) = new_drain_helper-is_valid getenv node_name namespace z text fit in
      let (e, refused) = E.refused s (valid ∙ short) in
      (
        (e, rw (refused, handle, branch, read, cleared) refl),
        sym (ap (λ (r : Result (Unit {0}) × State). holder r.1) cleared)
            ∙ Z.cleared t (ap (λ (r : Result (Unit {0}) × State). r.0) cleared),
      )
