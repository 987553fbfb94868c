-- ===== src/Drain/Memory.antt =====
-- Libraries that drain at once: every call succeeds, and this node leads as soon as it asks.
use openshift_operator.Base.{
  ℕ, zero, suc, ◌≡◌, refl, arith, Bool, true, false, ok, Exec, pure, raise, handle, wait_timeout,
  Keeps, handle-Keeps, if-Keeps, Bool-cases, inl, inr, if◌then◌else◌,
}
use openshift_operator.Drain.{IsLawful, Left, Election, stopped, leading}
use openshift_operator.Drain.Keeping.{LeavesAlone}
use openshift_operator.Drain.Captured.{lift, Libraries, host_over}

unfoldable pub backoff : (T : Type 0) → ℕ → Exec T Bool → Exec T (Unit {0})
backoff T zero f = raise wait_timeout
backoff T (suc k) f =
    let rest = backoff T k f in handle f (λ found. if found then pure tt else rest) raise

module _ (S : Type 0) where
  unfoldable pub elect : (L : Type 0) → (L × S → Left × (L × S)) → L × S → Election × (L × S)
  elect L f n = let (left, n') = f n in if left.cancelled then (stopped left, n') else (leading, n')

  abbrev pub libraries : Libraries S
  libraries = record {
    get_node = pure tt;
    run_cordon_or_uncordon = λ b. pure tt;
    run_node_drain = pure tt;
    exponential_backoff = backoff;
    new_leader_elector = pure tt;
    elector_run = elect;
    lease_get = pure tt;
    lease_clear = pure tt;
  }

  module _ (L : Type 0) where
    pub elect_cancelled :
        (f : L × S → Left × (L × S)) (n : L × S)
        → (f n).0.cancelled ≡ true
        → elect L f n ≡ (stopped (f n).0, (f n).1)
    unfolding elect
    elect_cancelled f n h = ground arith

    pub elect_leading :
        (f : L × S → Left × (L × S)) (n : L × S)
        → (f n).0.cancelled ≡ false
        → elect L f n ≡ (leading, (f n).1)
    unfolding elect
    elect_leading f n h = ground arith

    unfoldable pub host_is_lawful : IsLawful (host_over L S libraries)
    unfolding backoff
    host_is_lawful = record {
      backoff_zero = λ T f s. refl;
      backoff_suc = λ T n f s. refl;
      acquired = λ n. n;
      lease_lost = λ n. false;
      run_cancelled = λ f s h k. elect_cancelled f s h;
      run_leading = λ f s h k. elect_leading f s h;
    }

pub backoff-Keeps :
    {X : Type 0} (T : Type 0) (w : T → X) (n : ℕ) (f : Exec T Bool)
    → Keeps w f
    → Keeps w (backoff T n f)
unfolding backoff
backoff-Keeps T w zero f h = λ s. refl
backoff-Keeps T w (suc k) f h =
    handle-Keeps w f (λ found. if found then pure tt else backoff T k f) raise h
      (λ found. if-Keeps w found (pure tt) (backoff T k f) (λ s. refl) (backoff-Keeps T w k f h))
      (λ e s. refl)

pub elect_keeps :
    {X : Type 0} (S L : Type 0) (w : L × S → X) (f : L × S → Left × (L × S))
    → ((n : L × S) → w (f n).1 ≡ w n)
    → (n : L × S) → w (elect S L f n).1 ≡ w n
unfolding elect
elect_keeps S L w f h n = elim (Bool-cases (f n).0.cancelled) [
  | inl e ↦ rw e (h n)
  | inr e ↦ rw e (h n)
]

-- These libraries change nothing but what they call back.
abbrev pub libraries_leave_alone :
    {X : Type 0} (S L : Type 0) (view : S → X)
    → LeavesAlone X (host_over L S (libraries S)) (λ (p : L × S). view p.1)
unfolding lift
libraries_leave_alone S L view = record {
  node_keeps = λ p. refl;
  cordon_keeps = λ b p. refl;
  drain_keeps = λ p. refl;
  backoff_keeps = λ T w n f h. backoff-Keeps T w n f h;
  new_elector_keeps = λ p. refl;
  elector_keeps = λ f h p. elect_keeps S L (λ (q : L × S). view q.1) f h p;
  lease_get_keeps = λ p. refl;
  lease_clear_keeps = λ p. refl;
}

-- Libraries that mark the state when the node is cordoned or uncordoned, and when it is drained.
module _ (S : Type 0) (mark : Bool → S → S) (mark_drained : S → S) where
  abbrev pub marking : Libraries S
  marking = record (libraries S) {
    run_cordon_or_uncordon = λ b s. (ok tt, mark b s);
    run_node_drain = λ s. (ok tt, mark_drained s);
  }

  unfoldable pub marking_is_lawful : (L : Type 0) → IsLawful (host_over L S marking)
  unfolding backoff
  marking_is_lawful L = record {
    backoff_zero = λ T f s. refl;
    backoff_suc = λ T n f s. refl;
    acquired = λ n. n;
    lease_lost = λ n. false;
    run_cancelled = λ f s h k. elect_cancelled S L f s h;
    run_leading = λ f s h k. elect_leading S L f s h;
  }

  -- They leave alone what the marks leave alone.
  pub marking_leaves :
      {X : Type 0} (L : Type 0) (view : L × S → X)
      → ((b : Bool) (l : L) (s : S) → view (l, mark b s) ≡ view (l, s))
      → ((l : L) (s : S) → view (l, mark_drained s) ≡ view (l, s))
      → LeavesAlone X (host_over L S marking) view
  unfolding lift
  marking_leaves L view cordons drains = record {
    node_keeps = λ p. refl;
    cordon_keeps = λ b p. cordons b p.0 p.1;
    drain_keeps = λ p. drains p.0 p.1;
    backoff_keeps = λ T w n f h. backoff-Keeps T w n f h;
    new_elector_keeps = λ p. refl;
    elector_keeps = λ f h p. elect_keeps S L view f h p;
    lease_get_keeps = λ p. refl;
    lease_clear_keeps = λ p. refl;
  }
