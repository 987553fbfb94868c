-- ===== src/Drain/Tests.antt =====
-- A node in memory that refuses to be drained some times, and the theorems at it.
use openshift_operator.Base.{
  ℕ, zero, suc, ◌≡◌, refl, Bool, true, false, none, some, arith, failure, wait_timeout, ok, err,
  Exec, pure, raise, handle, if◌then◌else◌, ◌>>◌,
}
use openshift_operator.Drain.{
  Host, IsLawful, Left, Election, stopped, leading, Outcome, returned, cordon_and_drain, uncordon,
  ended, finish, drain_attempt, uncordon_attempt, work, uncordon_and_free_leadership,
  on_started_leading, release, run,
}
use openshift_operator.Drain.Retry.{five_attempts, drain_once, cordon_and_drain-eq-five_attempts}
use openshift_operator.Drain.Leading.{IsNode, run_drain_failed, run_drained}

record Node : Type 0 where
  cordoned : Bool
  drained : Bool
  refusals : ℕ

refuse : ℕ → Exec Node (Unit {0})
refuse zero n = (ok tt, record n { drained = true })
refuse (suc k) n = (err (failure "pod budget"), record n { refusals = k })

abbrev drain_node : Exec Node (Unit {0})
unfolding refuse
drain_node n = refuse n.refusals n

backoff : (S : Type 0) → ℕ → Exec S Bool → Exec S (Unit {0})
backoff S zero f = raise wait_timeout
backoff S (suc k) f =
    let rest = backoff S k f in handle f (λ found. if found then pure tt else rest) raise

elect : (Node → Left × Node) → Node → Election × Node
elect f n = let (left, n') = f n in if left.cancelled then (stopped left, n') else (leading, n')

abbrev host : Host
host = record {
  State = Node;
  get_node = pure tt;
  run_cordon_or_uncordon = λ b n. (ok tt, record n { cordoned = b });
  run_node_drain = λ n. refuse n.refusals n;
  exponential_backoff = backoff;
  new_leader_elector = pure tt;
  elector_run = elect;
  lease_get = pure tt;
  lease_clear = pure tt;
}

elect_cancelled :
    (f : Node → Left × Node) (n : Node)
    → (f n).0.cancelled ≡ true
    → elect f n ≡ (stopped (f n).0, (f n).1)
unfolding elect
elect_cancelled f n h = ground arith

elect_leading :
    (f : Node → Left × Node) (n : Node) → (f n).0.cancelled ≡ false → elect f n ≡ (leading, (f n).1)
unfolding elect
elect_leading f n h = ground arith

abbrev host-IsLawful : IsLawful host
unfolding backoff
host-IsLawful = record {
  backoff_zero = λ S f s. refl;
  backoff_suc = λ S n f s. refl;
  acquired = λ n. n;
  lease_lost = λ n. false;
  run_cancelled = λ f s h k. elect_cancelled f s h;
  run_leading = λ f s h k. elect_leading f s h;
}

refuse_lem :
    (k : ℕ) (n : Node)
    → (refuse k n).0 ≡ ok tt
    → ((refuse k n).1.drained ≡ true) × ((refuse k n).1.cordoned ≡ n.cordoned)
unfolding refuse
refuse_lem zero n h = (refl, refl)
refuse_lem (suc k) n h = ground arith

abbrev host-IsNode : IsNode host
host-IsNode = record {
  cordoned = λ n. n.cordoned;
  drained = λ n. n.drained;
  get_keeps = λ n. refl;
  cordon_ok = λ b n h. refl;
  drain_ok = λ n. refuse_lem n.refusals n;
  lease_get_keeps = λ n. refl;
  lease_clear_keeps = λ n. refl;
}

abbrev node : ℕ → Node
node k = record { cordoned = false; drained = false; refusals = k }

worker : Bool → Node → Bool × Node
worker b n = (b, n)

run_host : (Node → Bool × Node) → Bool → Node → Outcome × Node
unfolding run ended finish drain_attempt uncordon_attempt work uncordon_and_free_leadership
    cordon_and_drain uncordon on_started_leading release backoff elect refuse worker five_attempts
run_host = run host

four_refusals :
    run_host (worker true) true (node 4)
    ≡ (returned none, record { cordoned = false; drained = true; refusals = 0 })
unfolding run_host
four_refusals = refl

six_refusals : run_host (worker true) true (node 6) ≡ (
  returned (some (failure "pod budget")),
  record { cordoned = false; drained = false; refusals = 1 },
)
unfolding run_host
six_refusals = refl

cordon_and_drain_example :
    cordon_and_drain host (node 2) ≡ (host.get_node >> five_attempts (drain_once host)) (node 2)
cordon_and_drain_example = cordon_and_drain-eq-five_attempts host host-IsLawful (node 2)

run_drain_failed_example :
    run_host (worker true) true (node 5) ≡ (returned (some (failure "pod budget")), node 0)
unfolding run_host
run_drain_failed_example =
    run_drain_failed host host-IsLawful (worker true) (node 5)
      (record { cordoned = true; drained = false; refusals = 0 }) (failure "pod budget") refl refl
      refl

run_drained_example :
    (t : Node) × (t.cordoned ≡ true)
    × (t.drained ≡ true)
    × ((worker true t).0 ≡ true)
    × ((run_host (worker true) true (node 3)).1 ≡ release host (uncordon host (worker true t).1).1)
    × ((run_host (worker true) true (node 3)).1.cordoned ≡ false)
unfolding run_host
run_drained_example =
    run_drained host host-IsLawful host-IsNode (worker true) (node 3) refl refl refl
