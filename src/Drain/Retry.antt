-- ===== src/Drain/Retry.antt =====
-- The retry loops of `cordonAndDrain` and `uncordon`, with their captured error variable, beside
-- attempts that are written out.
use openshift_operator.Base.{
  fun_ext, ℕ, zero, suc, ◌≡◌, refl, Option, none, some, arith, Bool, true, false, Error, Result, ok,
  err, Exec, pure, raise, handle, if◌then◌else◌, ◌>>◌,
}
use openshift_operator.Drain.{
  Host, IsLawful, finish, drain_attempt, cordon_and_drain, uncordon_attempt, uncordon,
}

-- `n` more attempts, after one that failed with `e`.
unfoldable pub retry {ℓ} : {S : Type ℓ} → Exec S (Unit {0}) → ℕ → Error → Exec S (Unit {0})
retry attempt zero e = raise e
retry attempt (suc n) e = handle attempt pure (retry attempt n)

-- At most five attempts.
unfoldable pub five_attempts {ℓ} : {S : Type ℓ} → Exec S (Unit {0}) → Exec S (Unit {0})
five_attempts attempt = handle attempt pure (retry attempt 4)

-- An attempt as the condition of a retry loop that keeps the last error.
checked {ℓ} : {S : Type ℓ} → Exec S (Unit {0}) → Exec (S × Option Error) Bool
checked attempt (s, e) =
    handle attempt (λ _ s'. (ok true, (s', e))) (λ x s'. (ok false, (s', some x))) s

module _ (H : Host) where
  open H use {State}

  abbrev pub drain_once : Exec State (Unit {0})
  drain_once = H.run_cordon_or_uncordon true >> H.run_node_drain

  drain_attempt-eq-checked : drain_attempt H ≡ checked drain_once
  unfolding drain_attempt checked
  drain_attempt-eq-checked = fun_ext λ se. ground arith

  uncordon_attempt-eq-checked : uncordon_attempt H ≡ checked (H.run_cordon_or_uncordon false)
  unfolding uncordon_attempt checked
  uncordon_attempt-eq-checked = refl

module _ (H : Host) (L : IsLawful H) where
  open H use {State}

  -- One step of the loop, by the result of its attempt.
  backoff_step :
      (attempt : Exec State (Unit {0})) (n : ℕ) (s : State) (e : Option Error)
      → H.exponential_backoff (State × Option Error) (suc n) (checked attempt) (s, e)
        ≡ handle attempt
            (λ _ s'. (ok tt, (s', e)))
            (λ x s'. H.exponential_backoff (State × Option Error) n (checked attempt) (s', some x))
            s
  backoff_step attempt n s e = rw L.backoff_suc (by_result (attempt s).0 refl)
    where
      by_result :
          (r : Result (Unit {0}))
          → (attempt s).0 ≡ r
          → handle
              (checked attempt)
              (λ found.
                if found
                then pure tt
                else H.exponential_backoff (State × Option Error) n (checked attempt))
              raise
              (s, e)
            ≡ handle attempt
                (λ _ s'. (ok tt, (s', e)))
                (λ x s'.
                  H.exponential_backoff (State × Option Error) n (checked attempt) (s', some x))
                s
      by_result (ok u) h = unfold checked in rw h
      by_result (err x) h = unfold checked in rw h

  finish-backoff :
      (attempt : Exec State (Unit {0})) (n : ℕ) (s : State) (e : Error)
      → finish H (H.exponential_backoff (State × Option Error) n (checked attempt) (s, some e))
        ≡ retry attempt n e s
  unfolding retry finish
  finish-backoff attempt zero s e = rw L.backoff_zero
  finish-backoff attempt (suc n) s e =
      rw (backoff_step attempt n s (some e))
        (by_result (attempt s).0 refl (finish-backoff attempt n (attempt s).1))
    where
      by_result :
          (r : Result (Unit {0}))
          → (attempt s).0 ≡ r
          → ((x : Error)
              → finish H (
                  H.exponential_backoff
                    (State × Option Error)
                    n
                    (checked attempt)
                    ((attempt s).1, some x))
                ≡ retry attempt n x (attempt s).1)
          → finish H (
              handle attempt
                (λ _ s'. (ok tt, (s', some e)))
                (λ x s'.
                  H.exponential_backoff (State × Option Error) n (checked attempt) (s', some x))
                s)
            ≡ retry attempt (suc n) e s
      by_result (ok u) h ih = rw h
      by_result (err x) h ih = rw h (ih x)

  finish_five :
      (attempt : Exec State (Unit {0})) (s : State)
      → finish H (H.exponential_backoff (State × Option Error) 5 (checked attempt) (s, none))
        ≡ five_attempts attempt s
  unfolding five_attempts finish
  finish_five attempt s = rw (backoff_step attempt 4 s none) (by_result (attempt s).0 refl)
    where
      by_result :
          (r : Result (Unit {0}))
          → (attempt s).0 ≡ r
          → finish H (
              handle attempt
                (λ _ s'. (ok tt, (s', none)))
                (λ x s'.
                  H.exponential_backoff (State × Option Error) 4 (checked attempt) (s', some x))
                s)
            ≡ five_attempts attempt s
      by_result (ok u) h = rw h
      by_result (err x) h = rw h (finish-backoff attempt 4 (attempt s).1 x)

  -- `cordonAndDrain` reads the node, and then cordons and drains it in at most five attempts, of which
  -- the first that succeeds ends it; if all fail it returns the error of the fifth, never the time-out
  -- of the retry loop.
  pub cordon_and_drain-eq-five_attempts :
      (s : State) → cordon_and_drain H s ≡ (H.get_node >> five_attempts (drain_once H)) s
  unfolding cordon_and_drain
  cordon_and_drain-eq-five_attempts s =
      rw (drain_attempt-eq-checked H) (ground (arith, finish_five (drain_once H) (H.get_node s).1))

  -- `uncordon` reads the node, and then uncordons it in at most five attempts, with the error of the
  -- fifth if all fail.
  pub uncordon-eq-five_attempts :
      (s : State) → uncordon H s ≡ (H.get_node >> five_attempts (H.run_cordon_or_uncordon false)) s
  unfolding uncordon
  uncordon-eq-five_attempts s =
      rw (uncordon_attempt-eq-checked H)
        (ground (arith, finish_five (H.run_cordon_or_uncordon false) (H.get_node s).1))
