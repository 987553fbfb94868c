-- ===== src/Drain/Captured.antt =====
-- The drain helper over a state that its caller's closure captures too: the closure's variables stand
-- beside the state of the node, and the libraries do not touch them.
use openshift_operator.Base.{ℕ, Bool, Exec, Reconciled}
use openshift_operator.Drain.{Host, Left, Election}

-- What a reconciliation ends with: a result, or nothing, where the drain helper does not return.
pub data Reply : Type 0 where
  replied : Reconciled → Reply
  waiting : Reply

-- What the drain helper uses of the libraries; see `Host`. The election is over any variables.
pub record Libraries (S : Type 0) : Type 1 where
  pub get_node : Exec S (Unit {0})
  pub run_cordon_or_uncordon : Bool → Exec S (Unit {0})
  pub run_node_drain : Exec S (Unit {0})
  pub exponential_backoff : (T : Type 0) → ℕ → Exec T Bool → Exec T (Unit {0})
  pub new_leader_elector : Exec S (Unit {0})
  pub elector_run : (L : Type 0) → (L × S → Left × (L × S)) → L × S → Election × (L × S)
  pub lease_get : Exec S (Unit {0})
  pub lease_clear : Exec S (Unit {0})

-- A step that does not touch the captured variables.
unfoldable pub lift {ℓ} : {L S : Type 0} {A : Type ℓ} → Exec S A → Exec (L × S) A
lift m (l, s) = let (r, s') = m s in (r, (l, s'))

abbrev pub host_over : (L S : Type 0) → Libraries S → Host
host_over L S b = record {
  State = L × S;
  get_node = lift b.get_node;
  run_cordon_or_uncordon = λ c. lift (b.run_cordon_or_uncordon c);
  run_node_drain = lift b.run_node_drain;
  exponential_backoff = b.exponential_backoff;
  new_leader_elector = lift b.new_leader_elector;
  elector_run = b.elector_run L;
  lease_get = lift b.lease_get;
  lease_clear = lift b.lease_clear;
}
