-- ===== src/N3000/Reconcile/Succeeds.antt =====
-- How a reconciliation of a new resource of a node ends: with the condition Succeeded, and what was
-- done before that, or with an error in the condition, and what has failed.
mod Tests
use openshift_operator.Base.{
  ◌≡◌, refl, sym, ap, ◌∙◌, arith, Bool, true, false, not, List, [], ◌∷◌, ◌++◌, ◌⊎◌, inl, inr,
  message, Option, none, some, Error, Result, ok, err, handle, branch, done, if◌then◌else◌,
}
use openshift_operator.Api.{Key, condition_true, condition_false, condition_unknown}
use openshift_operator.Api.Fpga.{N3000Fpga, N3000NodeSpec}
use openshift_operator.Cluster.Fpga.{N3000Node}
use openshift_operator.N3000.Images.Keeping.{FilesKeep}
use openshift_operator.N3000.Reconcile.DryRun.{
  ApiKeeps, verify_wanted_fpga-Keeps, verify_wanted_fortville-Keeps, update_flash_condition_keeps,
}
use openshift_operator.Drain.{
  cordon_and_drain, still_leading, IsLawful, Outcome, returned, on_started_leading, uncordon,
  release, run,
}
use openshift_operator.Drain.Captured.{Reply, replied, lift}
use openshift_operator.Drain.Keeping.{
  LeavesAlone, cordon_and_drain-Keeps, uncordon-Keeps, release_keeps,
}
use openshift_operator.Drain.Leading.{
  IsNode, elected, error_of, error_after, cordon_and_drain_holds, uncordon_holds, leads_to_uncordon,
  leads_to_free, run-uncordon, run_drain_failed, release_keeps as lease_keeps,
}
use openshift_operator.N3000.Program.{elements, program_fpgas}
use openshift_operator.N3000.Program.Commands.{
  Command, Logs, wanted_commands, Runs, program_fpgas-Runs,
}
use openshift_operator.N3000.Reconcile.Working.{
  fpga_commands, program_wanted-log, worker_flashed, worker_failed, worker_asks,
}
use openshift_operator.N3000.Reconcile.{
  Reconciler, host, update_flash_condition, program_wanted, flash_wanted, worker, conclude,
  after_run, drained, verify_wanted_fpga, verify_wanted_fortville, verify_and_flash, reconcile,
}
use openshift_operator.N3000.Reconcile.Laws.{Begins, reconcile-verify_and_flash}

module _ (R : Reconciler) (L : Logs R.node) where
  open R use {node}
  open L use {log}

  -- The resource was reported as flashed: the FPGAs were programmed without an error on the cordoned
  -- and drained node, by the wanted commands, the controllers were flashed after that without an
  -- error, nothing else was run, and the node is not cordoned any more.
  unfoldable pub IsFlashed : IsNode (host R) → N3000Node → node.State → Reply × node.State → Type 0
  IsFlashed N n s reply =
      (p : Option Error × node.State) × (w : Option Error × node.State) × (reply ≡ (
        replied done,
        update_flash_condition R n condition_true "Succeeded" "Flashed successfully" w.1,
      ))
      × (N.cordoned p ≡ true)
      × (N.drained p ≡ true)
      × (N.cordoned w ≡ false)
      × let q = (program_wanted R n.spec p.1).1 in
        ((program_wanted R n.spec p.1).0 ≡ ok tt)
        × (log q ≡ log s ++ fpga_commands n.spec)
        × ((flash_wanted R n.spec q).0 ≡ ok tt)
        × (log reply.1 ≡ log (flash_wanted R n.spec q).1)

  -- The resource was reported as not flashed: as Unknown with the error of the drain or of an
  -- uncordon, or, after a drain without an error, as Failed with the error of the programming of the
  -- FPGAs, or else of the flashing of the controllers.
  unfoldable pub Refuses : IsLawful (host R) → N3000Node → node.State → Reply × node.State → Type 0
  Refuses E n v reply =
      let drain = cordon_and_drain (host R) (elected (host R) E (none, v)) in
      let program = program_wanted R n.spec drain.1.1 in
      (e : Error) × (w : node.State) × (((reply
            ≡ (replied done, update_flash_condition R n condition_unknown "Unknown" (message e) w))
          × ((drain.0 ≡ err e)
              ⊎ ((t : Option Error × node.State) × ((uncordon (host R) t).0 ≡ err e))))
        ⊎ ((reply
              ≡ (replied done, update_flash_condition R n condition_false "Failed" (message e) w))
            × (drain.0 ≡ ok tt)
            × ((program.0 ≡ err e)
                ⊎ ((program.0 ≡ ok tt) × ((flash_wanted R n.spec program.1).0 ≡ err e)))))

  module _ (F : FilesKeep node log) (A : ApiKeeps R L) (E : IsLawful (host R)) (N : IsNode (host R))
      (K : LeavesAlone (Option Error) (host R) (λ (p : Option Error × node.State). p.0))
      (acquires : (p : Option Error × node.State) → log (E.acquired p).1 ≡ log p.1)
      (leaves_error : (p : Option Error × node.State) → (E.acquired p).0 ≡ p.0) where
    abbrev log_of : Option Error × node.State → List Command
    log_of p = log p.1

    -- What the uncordon and the release of the lease leave.
    freed :
        (p : Option Error × node.State)
        → let q = release (host R) (uncordon (host R) p).1 in (q.0 ≡ p.0) × (log q.1 ≡ log p.1)
    freed p = (
      release_keeps (host R) (λ (q : Option Error × node.State). q.0) K (uncordon (host R) p).1
          ∙ uncordon-Keeps (host R) (λ (q : Option Error × node.State). q.0) K p,
      release_keeps (host R) log_of A.libraries_keep (uncordon (host R) p).1
          ∙ uncordon-Keeps (host R) log_of A.libraries_keep p,
    )

    -- The commands before the worker.
    drained-log :
        (v : node.State)
        → log_of (cordon_and_drain (host R) (elected (host R) E (none, v))).1 ≡ log v
    drained-log v =
        cordon_and_drain-Keeps (host R) log_of A.libraries_keep (elected (host R) E (none, v))
        ∙ acquires _
        ∙ A.libraries_keep.new_elector_keeps (none, v)

    log_at_begin :
        (k : Key) (n : N3000Node) (s t u v : node.State)
        → Begins R k n s t
        → verify_wanted_fpga R n.spec t ≡ (ok tt, u)
        → verify_wanted_fortville R n.spec u ≡ (ok tt, v)
        → log v ≡ log s
    log_at_begin k n s t u v h fpga fortville =
        sym (ap (λ (r : Result (Unit {0}) × node.State). log r.1) fortville)
        ∙ verify_wanted_fortville-Keeps R L F A n.spec u
        ∙ sym (ap (λ (r : Result (Unit {0}) × node.State). log r.1) fpga)
        ∙ verify_wanted_fpga-Keeps R L F A n.spec t
        ∙ sym (ap (λ (r : Result N3000Node × node.State). log r.1) h.found)
        ∙ A.get_keeps k s

    settled_at :
        (n : N3000Node) (s v : node.State) (r r' : Reply × node.State)
        → r ≡ r'
        → IsFlashed N n s r' ⊎ Refuses E n v r'
        → IsFlashed N n s r ⊎ Refuses E n v r
    settled_at n s v r r' e h = rw e h

    -- The closure has left no error before the worker.
    drained_fresh :
        (v : node.State) → (cordon_and_drain (host R) (elected (host R) E (none, v))).1.0 ≡ none
    drained_fresh v =
        cordon_and_drain-Keeps (host R) (λ (q : Option Error × node.State). q.0) K
          (elected (host R) E (none, v))
        ∙ leaves_error _
        ∙ K.new_elector_keeps (none, v)

    -- The error of `Run` after a failed drain.
    by_either :
        (e : Error) (p : Option Error × node.State) (drain : Result (Unit {0}))
        → drain ≡ err e
        → let x = error_after (host R) E e (uncordon (host R) p).0 in
          (drain ≡ err x) ⊎ ((t : Option Error × node.State) × ((uncordon (host R) t).0 ≡ err x))
    by_either e p drain h = by_result (uncordon (host R) p).0 refl
      where
        by_result :
            (r : Result (Unit {0}))
            → (uncordon (host R) p).0 ≡ r
            → let x = error_after (host R) E e (uncordon (host R) p).0 in
              (drain ≡ err x)
              ⊎ ((t : Option Error × node.State) × ((uncordon (host R) t).0 ≡ err x))
        by_result (ok u) eq = inl (ground (arith, eq, h))
        by_result (err y) eq = inr (p, ground (arith, eq))

    -- What follows the preconditions, with a drain.
    run_settles :
        (n : N3000Node) (s v : node.State)
        → (R.libraries.new_leader_elector v).0 ≡ ok tt
        → E.lease_lost
            (on_started_leading (host R) (worker R n.spec) true (elected (host R) E (none, v))).1
          ≡ false
        → log v ≡ log s
        → IsFlashed N n s (after_run R n (run (host R) (worker R n.spec) true (none, v)))
          ⊎ Refuses E n v (after_run R n (run (host R) (worker R n.spec) true (none, v)))
    unfolding IsFlashed Refuses after_run conclude lift
    run_settles n s v created kept same = by_drain (cordon_and_drain (host R) u).0 refl
      where
        f : Option Error × node.State → Bool × (Option Error × node.State)
        f = worker R n.spec

        u : Option Error × node.State
        u = elected (host R) E (none, v)

        p : Option Error × node.State
        p = (cordon_and_drain (host R) u).1

        w : Option Error × node.State
        w = release (host R) (uncordon (host R) (f p).1).1

        ran : Outcome × (Option Error × node.State)
        ran = run (host R) f true (none, v)

        by_closure :
            (o : Option Error)
            → (cordon_and_drain (host R) u).0 ≡ ok tt
            → (uncordon (host R) (f p).1).0 ≡ ok tt
            → (f p).1.0 ≡ o
            → ran ≡ (returned none, w)
            → IsFlashed N n s (after_run R n ran) ⊎ Refuses E n v (after_run R n ran)
        by_closure (some e) hd hu hf hr = inr (
          e,
          w.1,
          inr (
            ap (after_run R n) hr
                ∙ ap (λ (o : Option Error). after_run R n (returned none, (o, w.1)))
                    ((freed (f p).1).0 ∙ hf),
            hd,
            worker_failed R L n.spec p e (drained_fresh v) hf,
          ),
        )
        by_closure none hd hu hf hr =
            let (cordons, drains) = cordon_and_drain_holds (host R) E N u hd in
            let (programmed, flashed, last) = worker_flashed R L n.spec p hf in
            let reply =
              ap (after_run R n) hr
              ∙ ap (λ (o : Option Error). after_run R n (returned none, (o, w.1)))
                  ((freed (f p).1).0 ∙ hf) in
            inl (
              p,
              w,
              reply,
              cordons,
              drains,
              lease_keeps (host R) E N (uncordon (host R) (f p).1).1
                  ∙ uncordon_holds (host R) E N (f p).1 hu,
              (
                programmed,
                program_wanted-log R L n.spec p.1 programmed
                    ∙ ap (λ (l : List Command). l ++ fpga_commands n.spec) (drained-log v ∙ same),
                flashed,
                ap (λ (r : Reply × node.State). log r.1) reply
                    ∙ update_flash_condition_keeps R L F A n _ _ _ w.1
                    ∙ (freed (f p).1).1
                    ∙ ap log last,
              ),
            )

        by_uncordon :
            (r : Result (Unit {0}))
            → (cordon_and_drain (host R) u).0 ≡ ok tt
            → (uncordon (host R) (f p).1).0 ≡ r
            → ran ≡ (returned (error_of (host R) E (uncordon (host R) (f p).1).0), w)
            → IsFlashed N n s (after_run R n ran) ⊎ Refuses E n v (after_run R n ran)
        by_uncordon (ok x) hd hu hr = by_closure (f p).1.0 hd hu refl (ground (arith, hr, hu))
        by_uncordon (err x) hd hu hr = inr (
          x,
          w.1,
          inl (
            ap (after_run R n) hr
                ∙ ap
                    (λ (o : Result (Unit {0})). after_run R n (returned (error_of (host R) E o), w))
                    hu,
            inr ((f p).1, hu),
          ),
        )

        by_drain :
            (r : Result (Unit {0}))
            → (cordon_and_drain (host R) u).0 ≡ r
            → IsFlashed N n s (after_run R n ran) ⊎ Refuses E n v (after_run R n ran)
        by_drain (ok x) hd = by_uncordon (uncordon (host R) (f p).1).0 hd refl (
            run-uncordon (host R) E f (none, v) p created (λ i. (hd i, p))
              (worker_asks R L n.spec p)
              (ap E.lease_lost (
                  sym (
                    leads_to_uncordon (host R) E f u p (λ i. (hd i, p)) (worker_asks R L n.spec p)))
                ∙ kept))
        by_drain (err e) hd =
            let lost =
              ap E.lease_lost (sym (leads_to_free (host R) E f u p e (λ i. (hd i, p)))) ∙ kept in
            inr (
              error_after (host R) E e (uncordon (host R) p).0,
              _,
              inl (
                ap (after_run R n)
                    (run_drain_failed (host R) E f (none, v) p e created (λ i. (hd i, p)) lost),
                by_either e p (cordon_and_drain (host R) u).0 hd,
              ),
            )

    -- A new resource whose preconditions hold, with a drain, where the elector was created and the lease
    -- is not lost: the reconciliation ends with the condition Succeeded, Unknown or Failed. With the
    -- first, the FPGAs were programmed without an error on the cordoned and drained node, by the update
    -- and the power cycle of each of them in their order (by no command in a dry run), the controllers
    -- were flashed after that without an error, no command that changes a card was run before or after
    -- these, and the node is not cordoned any more. Unknown has the error of the drain or of an uncordon.
    -- Failed has that of the programming, or else of the flashing, after a drain without an error.
    pub reconcile_flashes :
        (k : Key) (n : N3000Node) (s t u v : node.State)
        → Begins R k n s t
        → n.spec.drain_skip ≡ false
        → verify_wanted_fpga R n.spec t ≡ (ok tt, u)
        → verify_wanted_fortville R n.spec u ≡ (ok tt, v)
        → (R.libraries.new_leader_elector v).0 ≡ ok tt
        → E.lease_lost
            (on_started_leading (host R) (worker R n.spec) true (elected (host R) E (none, v))).1
          ≡ false
        → IsFlashed N n s (reconcile R k s) ⊎ Refuses E n v (reconcile R k s)
    unfolding verify_and_flash drained lift
    reconcile_flashes k n s t u v h drains fpga fortville created kept =
        settled_at n s v _ _
          (reconcile-verify_and_flash R k n s t h
            ∙ rw (fpga, handle, branch, fortville) refl
            ∙ ap (λ (b : Bool). after_run R n (run (host R) (worker R n.spec) (not b) (none, v)))
                drains)
          (run_settles n s v created kept (log_at_begin k n s t u v h fpga fortville))
