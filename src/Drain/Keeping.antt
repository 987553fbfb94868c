-- ===== src/Drain/Keeping.antt =====
-- What Run leaves alone: a part of the state that neither the libraries nor the worker touch.
use openshift_operator.Base.{
  ℕ, ◌≡◌, refl, ◌∙◌, arith, Bool, true, false, ◌&&◌, Option, none, some, Error, wait_timeout,
  Result, ok, err, Exec, raise, handle, Keeps, handle-Keeps, handle_unchanged, Bool-cases, inl, inr,
}
use openshift_operator.Drain.{
  Host, Left, Election, stopped, leading, Outcome, finish, drain_attempt, cordon_and_drain,
  uncordon_attempt, uncordon, uncordon_and_free_leadership, work, on_started_leading, release,
  ended, run,
}

-- The calls of the libraries leave a view of the state alone. A retry loop and the elector leave alone
-- what the function that they are given leaves alone.
pub record LeavesAlone {ℓ} (X : Type ℓ) (H : Host) (view : H.State → X) : Type (ℓ ⊔ 1) where
  pub node_keeps : Keeps view H.get_node
  pub cordon_keeps : (b : Bool) → Keeps view (H.run_cordon_or_uncordon b)
  pub drain_keeps : Keeps view H.run_node_drain
  pub backoff_keeps :
      (S : Type 0) (w : S → X) (n : ℕ) (f : Exec S Bool)
      → Keeps w f
      → Keeps w (H.exponential_backoff S n f)
  pub new_elector_keeps : Keeps view H.new_leader_elector
  pub elector_keeps :
      (f : H.State → Left × H.State)
      → ((s : H.State) → view (f s).1 ≡ view s)
      → (s : H.State) → view (H.elector_run f s).1 ≡ view s
  pub lease_get_keeps : Keeps view H.lease_get
  pub lease_clear_keeps : Keeps view H.lease_clear

module _ {ℓ} {X : Type ℓ} (H : Host) (view : H.State → X) (L : LeavesAlone X H view) where
  open H use {State}

  -- The view beside the variable of the last error.
  abbrev beside : State × Option Error → X
  beside (s, e) = view s

  finish_keeps : (r : Result (Unit {0}) × (State × Option Error)) → view (finish H r).1 ≡ beside r.1
  unfolding finish
  finish_keeps (ok u, (s, e)) = refl
  finish_keeps (err wait_timeout, (s, e)) = refl
  finish_keeps (err (Error.not_found m), (s, e)) = refl
  finish_keeps (err (Error.not_exist m), (s, e)) = refl
  finish_keeps (err (Error.failure m), (s, e)) = refl

  -- The five attempts after the node was found.
  retried_unchanged :
      (f : Exec (State × Option Error) Bool)
      → Keeps beside f
      → (s : State)
      → view (finish H (H.exponential_backoff (State × Option Error) 5 f (s, none))).1 ≡ view s
  retried_unchanged f h s =
      finish_keeps (H.exponential_backoff (State × Option Error) 5 f (s, none))
      ∙ L.backoff_keeps (State × Option Error) beside 5 f h (s, none)

  drain_attempt-Keeps : Keeps beside (drain_attempt H)
  unfolding drain_attempt
  drain_attempt-Keeps (s, e) =
      handle_unchanged view (λ (r : Result Bool × (State × Option Error)). beside r.1)
        (H.run_cordon_or_uncordon true)
        (λ _.
          handle H.run_node_drain (λ _ s'. (ok true, (s', e))) (λ x s'. (ok false, (s', some x))))
        (λ x s'. (ok false, (s', some x))) (L.cordon_keeps true)
        (λ u.
          handle_unchanged view (λ (r : Result Bool × (State × Option Error)). beside r.1)
            H.run_node_drain (λ _ s'. (ok true, (s', e))) (λ x s'. (ok false, (s', some x)))
            L.drain_keeps (λ _ t. refl) (λ _ t. refl))
        (λ x t. refl) s

  pub cordon_and_drain-Keeps : Keeps view (cordon_and_drain H)
  unfolding cordon_and_drain
  cordon_and_drain-Keeps =
      handle-Keeps view H.get_node _ raise L.node_keeps
        (λ u. retried_unchanged (drain_attempt H) drain_attempt-Keeps) (λ e s. refl)

  uncordon_attempt-Keeps : Keeps beside (uncordon_attempt H)
  unfolding uncordon_attempt
  uncordon_attempt-Keeps (s, e) =
      handle_unchanged view (λ (r : Result Bool × (State × Option Error)). beside r.1)
        (H.run_cordon_or_uncordon false) (λ _ s'. (ok true, (s', e)))
        (λ x s'. (ok false, (s', some x))) (L.cordon_keeps false) (λ u t. refl) (λ x t. refl) s

  pub uncordon-Keeps : Keeps view (uncordon H)
  unfolding uncordon
  uncordon-Keeps =
      handle-Keeps view H.get_node _ raise L.node_keeps
        (λ u. retried_unchanged (uncordon_attempt H) uncordon_attempt-Keeps) (λ e s. refl)

  frees_keeps :
      (inner : Option Error) (s : State) → view (uncordon_and_free_leadership H inner s).1 ≡ view s
  unfolding uncordon_and_free_leadership
  frees_keeps inner =
      handle_unchanged view (λ (r : Left × State). view r.1) (uncordon H) _ _ uncordon-Keeps
        (λ u s. refl) (λ e s. refl)

  pub release_keeps : (s : State) → view (release H s) ≡ view s
  unfolding release
  release_keeps =
      handle_unchanged view view H.lease_get _ _ L.lease_get_keeps (λ u s. L.lease_clear_keeps s)
        (λ e s. refl)

  ended_keeps : (r : Election × State) → view (ended H r).1 ≡ view r.1
  unfolding ended
  ended_keeps (stopped left, s) = release_keeps s
  ended_keeps (leading, s) = refl

  module _ (f : State → Bool × State) (h : (s : State) → view (f s).1 ≡ view s) where
    work_keeps : (drain : Bool) (s : State) → view (work H f drain s).1 ≡ view s
    unfolding work
    work_keeps drain s = elim (Bool-cases (drain && (f s).0)) [
      | inl e ↦ ground (arith, e, frees_keeps none (f s).1, h s)
      | inr e ↦ ground (arith, e, h s)
    ]

    leads_keeps : (drain : Bool) (s : State) → view (on_started_leading H f drain s).1 ≡ view s
    unfolding on_started_leading
    leads_keeps false s = work_keeps false s
    leads_keeps true s =
        handle_unchanged view (λ (r : Left × State). view r.1) (cordon_and_drain H) _ _
          cordon_and_drain-Keeps (λ u t. work_keeps true t) (λ e t. frees_keeps (some e) t) s

    -- Run leaves alone what the libraries and the worker leave alone, with a drain and without one,
    -- however it ends.
    pub run_keeps : (drain : Bool) (s : State) → view (run H f drain s).1 ≡ view s
    unfolding run
    run_keeps drain =
        handle_unchanged view (λ (r : Outcome × State). view r.1) H.new_leader_elector _ _
          L.new_elector_keeps
          (λ u t.
            ended_keeps (H.elector_run (on_started_leading H f drain) t)
            ∙ L.elector_keeps (on_started_leading H f drain) (leads_keeps drain) t)
          (λ e t. release_keeps t)
