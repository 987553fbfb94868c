-- ===== src/Drain/Leading.antt =====
-- What `Run` does with the node and the leadership, on each way through its callbacks.
use openshift_operator.Base.{
  ◌≡◌, refl, sym, ap, Bool, true, false, Option, none, some, arith, ◌∙◌, Error, wait_timeout,
  Result, ok, err, Exec, handle, ℕ, zero, suc,
}
use openshift_operator.Drain.{
  Host, IsLawful, returned, still_leading, cordon_and_drain, uncordon, uncordon_and_free_leadership,
  work, on_started_leading, release, ended, run,
}
use openshift_operator.Drain.Retry.{
  retry, five_attempts, drain_once, cordon_and_drain-eq-five_attempts, uncordon-eq-five_attempts,
}

-- What the calls that return no error have done to the node, and that calls about the lease and
-- reads leave it alone.
pub record IsNode (H : Host) : Type 0 where
  pub cordoned : H.State → Bool
  pub drained : H.State → Bool
  pub get_keeps : (s : H.State) → cordoned (H.get_node s).1 ≡ cordoned s
  pub cordon_ok :
      (b : Bool) (s : H.State)
      → (H.run_cordon_or_uncordon b s).0 ≡ ok tt
      → cordoned (H.run_cordon_or_uncordon b s).1 ≡ b
  pub drain_ok :
      (s : H.State)
      → (H.run_node_drain s).0 ≡ ok tt
      → (drained (H.run_node_drain s).1 ≡ true) × (cordoned (H.run_node_drain s).1 ≡ cordoned s)
  pub lease_get_keeps : (s : H.State) → cordoned (H.lease_get s).1 ≡ cordoned s
  pub lease_clear_keeps : (s : H.State) → cordoned (H.lease_clear s).1 ≡ cordoned s

-- What a successful attempt has established, a successful retry has.
module _ {S : Type 0} (P : S → Type 0) (attempt : Exec S (Unit {0}))
    (step : (s : S) → (attempt s).0 ≡ ok tt → P (attempt s).1) where
  retry_holds :
      (n : ℕ) (e : Error) (s : S) → (retry attempt n e s).0 ≡ ok tt → P (retry attempt n e s).1
  unfolding retry
  retry_holds zero e s h = ground arith
  retry_holds (suc n) e s h = by_result (attempt s).0 refl h (λ x. retry_holds n x (attempt s).1)
    where
      by_result :
          (r : Result (Unit {0}))
          → (attempt s).0 ≡ r
          → (retry attempt (suc n) e s).0 ≡ ok tt
          → ((x : Error)
              → (retry attempt n x (attempt s).1).0 ≡ ok tt
              → P (retry attempt n x (attempt s).1).1)
          → P (retry attempt (suc n) e s).1
      by_result (ok u) e h ih = rw e (step s e)
      by_result (err x) e h ih = rw e (ih x (rw e at h))

  five_attempts_holds :
      (s : S) → (five_attempts attempt s).0 ≡ ok tt → P (five_attempts attempt s).1
  unfolding five_attempts retry
  five_attempts_holds s = retry_holds 5 wait_timeout s

module _ (H : Host) (L : IsLawful H) (N : IsNode H) where
  open H use {State}
  open N use {cordoned, drained, get_keeps, cordon_ok, drain_ok}

  drain_once_holds :
      (s : State)
      → (drain_once H s).0 ≡ ok tt
      → (cordoned (drain_once H s).1 ≡ true) × (drained (drain_once H s).1 ≡ true)
  drain_once_holds s h =
      ground (arith, cordon_ok true s, drain_ok (H.run_cordon_or_uncordon true s).1)

  -- After a successful drain the node is cordoned and drained.
  pub cordon_and_drain_holds :
      (s : State)
      → (cordon_and_drain H s).0 ≡ ok tt
      → (cordoned (cordon_and_drain H s).1 ≡ true) × (drained (cordon_and_drain H s).1 ≡ true)
  cordon_and_drain_holds s h = rw (cordon_and_drain-eq-five_attempts H L s) (
      ground (
        arith,
        rw (cordon_and_drain-eq-five_attempts H L s) at h,
        five_attempts_holds (λ (t : State). (cordoned t ≡ true) × (drained t ≡ true)) (drain_once H)
            drain_once_holds (H.get_node s).1,
      ))

  pub uncordon_holds : (s : State) → (uncordon H s).0 ≡ ok tt → cordoned (uncordon H s).1 ≡ false
  uncordon_holds s h = rw (uncordon-eq-five_attempts H L s) (
      ground (
        arith,
        rw (uncordon-eq-five_attempts H L s) at h,
        five_attempts_holds (λ (t : State). cordoned t ≡ false) (H.run_cordon_or_uncordon false)
            (cordon_ok false) (H.get_node s).1,
      ))

  pub release_keeps : (s : State) → cordoned (release H s) ≡ cordoned s
  unfolding release
  release_keeps s = ground (arith, N.lease_get_keeps s, N.lease_clear_keeps (H.lease_get s).1)

module _ (H : Host) (L : IsLawful H) where
  open H use {State}

  -- The state in which the callback starts.
  abbrev pub elected : State → State
  elected s = L.acquired (H.new_leader_elector s).1

  run_stopped :
      (f : State → Bool × State) (drain : Bool) (s : State)
      → (H.new_leader_elector s).0 ≡ ok tt
      → (on_started_leading H f drain (elected s)).0.cancelled ≡ true
      → L.lease_lost (on_started_leading H f drain (elected s)).1 ≡ false
      → run H f drain s ≡ (
        returned (on_started_leading H f drain (elected s)).0.inner_err,
        release H (on_started_leading H f drain (elected s)).1,
      )
  unfolding run ended
  run_stopped f drain s hn hc hl =
      ground (arith, L.run_cancelled (on_started_leading H f drain) (H.new_leader_elector s).1)

  run_holding :
      (f : State → Bool × State) (drain : Bool) (s : State)
      → (H.new_leader_elector s).0 ≡ ok tt
      → (on_started_leading H f drain (elected s)).0.cancelled ≡ false
      → L.lease_lost (on_started_leading H f drain (elected s)).1 ≡ false
      → run H f drain s ≡ (still_leading, (on_started_leading H f drain (elected s)).1)
  unfolding run ended
  run_holding f drain s hn hc hl =
      ground (arith, L.run_leading (on_started_leading H f drain) (H.new_leader_elector s).1)

  -- Without a drain, once the elector is created, the worker runs on the state in which this node leads
  -- and the leadership is not given up, whatever the worker returns: `Run` does not return, as long
  -- as the lease is not lost.
  pub run_no_drain :
      (f : State → Bool × State) (s : State)
      → (H.new_leader_elector s).0 ≡ ok tt
      → L.lease_lost (f (elected s)).1 ≡ false
      → run H f false s ≡ (still_leading, (f (elected s)).1)
  unfolding on_started_leading work
  run_no_drain f s hn hl = run_holding f false s hn refl hl

  -- The callback, by the result of the drain.
  callback_drained :
      (f : State → Bool × State) (u t : State)
      → cordon_and_drain H u ≡ (ok tt, t)
      → on_started_leading H f true u ≡ work H f true t
  unfolding on_started_leading
  callback_drained f u t hd = rw (hd, handle)

  callback_failed :
      (f : State → Bool × State) (u t : State) (e : Error)
      → cordon_and_drain H u ≡ (err e, t)
      → on_started_leading H f true u ≡ uncordon_and_free_leadership H (some e) t
  unfolding on_started_leading
  callback_failed f u t e hd = rw (hd, handle)

  work_no_uncordon :
      (f : State → Bool × State) (t : State)
      → (f t).0 ≡ false
      → work H f true t ≡ (record { cancelled = false; inner_err = none }, (f t).1)
  unfolding work
  work_no_uncordon f t hf = ground arith

  abbrev pub error_of : Result (Unit {0}) → Option Error
  error_of (ok u) = none
  error_of (err x) = some x

  abbrev pub error_after : Error → Result (Unit {0}) → Error
  error_after e (ok u) = e
  error_after e (err x) = x

  uncordon_and_free_lem :
      (e : Error) (t : State)
      → uncordon_and_free_leadership H (some e) t ≡ (
        record { cancelled = true; inner_err = some (error_after e (uncordon H t).0) },
        (uncordon H t).1,
      )
  unfolding uncordon_and_free_leadership
  uncordon_and_free_lem e t = ground arith

  -- The state in which the callback ends, after a drain that succeeded or failed.
  pub leads_to_uncordon :
      (f : State → Bool × State) (u t : State)
      → cordon_and_drain H u ≡ (ok tt, t)
      → (f t).0 ≡ true
      → (on_started_leading H f true u).1 ≡ (uncordon H (f t).1).1
  unfolding work uncordon_and_free_leadership
  leads_to_uncordon f u t hd hf = ground (arith, callback_drained f u t hd)

  pub leads_to_free :
      (f : State → Bool × State) (u t : State) (e : Error)
      → cordon_and_drain H u ≡ (err e, t)
      → (on_started_leading H f true u).1 ≡ (uncordon H t).1
  leads_to_free f u t e hd = ground (arith, callback_failed f u t e hd, uncordon_and_free_lem e t)

  -- A worker that asks for the uncordon.
  pub run-uncordon :
      (f : State → Bool × State) (s t : State)
      → (H.new_leader_elector s).0 ≡ ok tt
      → cordon_and_drain H (elected s) ≡ (ok tt, t)
      → (f t).0 ≡ true
      → L.lease_lost (uncordon H (f t).1).1 ≡ false
      → run H f true s
        ≡ (returned (error_of (uncordon H (f t).1).0), release H (uncordon H (f t).1).1)
  unfolding work uncordon_and_free_leadership
  run-uncordon f s t hn hd hf hl =
      ground (arith, callback_drained f (elected s) t hd, run_stopped f true s hn)

  -- After a successful drain, a worker that returns false keeps the leadership: `Run` does not return,
  -- as long as the lease is not lost, and nothing is done to the node after the worker.
  pub run_reboot :
      (f : State → Bool × State) (s t : State)
      → (H.new_leader_elector s).0 ≡ ok tt
      → cordon_and_drain H (elected s) ≡ (ok tt, t)
      → (f t).0 ≡ false
      → L.lease_lost (f t).1 ≡ false
      → run H f true s ≡ (still_leading, (f t).1)
  run_reboot f s t hn hd hf hl =
      let seen : on_started_leading H f true (elected s)
          ≡ (record { cancelled = false; inner_err = none }, (f t).1) =
        callback_drained f (elected s) t hd ∙ work_no_uncordon f t hf in
      ground (arith, seen, run_holding f true s hn)

  -- If the elector was created, the drain fails, and the lease is not lost in the meantime, the worker
  -- does not run, the uncordon is tried, and `Run` releases the lease and returns the error of the
  -- uncordon if that fails too, and of the drain if not.
  pub run_drain_failed :
      (f : State → Bool × State) (s t : State) (e : Error)
      → (H.new_leader_elector s).0 ≡ ok tt
      → cordon_and_drain H (elected s) ≡ (err e, t)
      → L.lease_lost (uncordon H t).1 ≡ false
      → run H f true s
        ≡ (returned (some (error_after e (uncordon H t).0)), release H (uncordon H t).1)
  run_drain_failed f s t e hn hd hl =
      let seen : on_started_leading H f true (elected s) ≡ (
        record { cancelled = true; inner_err = some (error_after e (uncordon H t).0) },
        (uncordon H t).1,
      ) =
        callback_failed f (elected s) t e hd ∙ uncordon_and_free_lem e t in
      ground (arith, seen, run_stopped f true s hn)

module _ (H : Host) (L : IsLawful H) (N : IsNode H) where
  open H use {State}
  open N use {cordoned, drained}

  -- Where `Run` with a drain returns no error, and its elector was created and the lease not lost,
  -- the worker ran on the cordoned and drained node and returned true, the uncordon and the release
  -- of the lease followed, and the node is not cordoned any more.
  pub run_drained :
      (f : State → Bool × State) (s : State)
      → (H.new_leader_elector s).0 ≡ ok tt
      → L.lease_lost (on_started_leading H f true (elected H L s)).1 ≡ false
      → (run H f true s).0 ≡ returned none
      → (t : State) × (cordoned t ≡ true)
        × (drained t ≡ true)
        × ((f t).0 ≡ true)
        × ((run H f true s).1 ≡ release H (uncordon H (f t).1).1)
        × (cordoned (run H f true s).1 ≡ false)
  run_drained f s hn hl h = by_drain (cordon_and_drain H u).0 refl
    where
      u : State
      u = elected H L s

      t : State
      t = (cordon_and_drain H u).1

      by_worker :
          (b : Bool)
          → (cordon_and_drain H u).0 ≡ ok tt
          → (f t).0 ≡ b
          → (t : State) × (cordoned t ≡ true)
            × (drained t ≡ true)
            × ((f t).0 ≡ true)
            × ((run H f true s).1 ≡ release H (uncordon H (f t).1).1)
            × (cordoned (run H f true s).1 ≡ false)
      by_worker true hd hf =
          let kept : L.lease_lost (uncordon H (f t).1).1 ≡ false =
            ap L.lease_lost (sym (leads_to_uncordon H L f u t (λ i. (hd i, t)) hf)) ∙ hl in
          let ran = run-uncordon H L f s t hn (λ i. (hd i, t)) hf kept in
          let there = cordon_and_drain_holds H L N u hd in
          (
            t,
            there.0,
            there.1,
            hf,
            ground (arith, ran),
            ground (
              arith,
              ran,
              release_keeps H L N (uncordon H (f t).1).1,
              uncordon_holds H L N (f t).1,
            ),
          )
      by_worker false hd hf = absurd (
          ground (
            arith,
            callback_drained H L f u t (λ i. (hd i, t)),
            work_no_uncordon H L f t hf,
            run_reboot H L f s t hn (λ i. (hd i, t)) hf,
          ))

      by_drain :
          (r : Result (Unit {0}))
          → (cordon_and_drain H u).0 ≡ r
          → (t : State) × (cordoned t ≡ true)
            × (drained t ≡ true)
            × ((f t).0 ≡ true)
            × ((run H f true s).1 ≡ release H (uncordon H (f t).1).1)
            × (cordoned (run H f true s).1 ≡ false)
      by_drain (ok tt) hd = by_worker (f t).0 hd refl
      by_drain (err e) hd =
          let kept : L.lease_lost (uncordon H t).1 ≡ false =
            ap L.lease_lost (sym (leads_to_free H L f u t e (λ i. (hd i, t)))) ∙ hl in
          absurd (ground (arith, run_drain_failed H L f s t e hn (λ i. (hd i, t)) kept))
