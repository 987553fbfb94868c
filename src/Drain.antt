-- ===== src/Drain.antt =====
-- common/pkg/drainhelper/drainhelper.go: `DrainHelper`, which runs a worker function while this node
-- leads, between a drain and an uncordon of the node. The Kubernetes API, the drain package of
-- kubectl, the retry loop of the API machinery and the leader election of client-go are parameters.
pub mod Retry
pub mod Leading
pub mod Keeping
pub mod Captured
pub mod Memory
pub mod Refused
pub mod Settings
mod Tests
use openshift_operator.Base.{
  ℕ, zero, suc, ◌≡◌, Bool, true, false, ◌&&◌, Option, none, some, Error, wait_timeout, Result, ok,
  err, Exec, pure, raise, handle, if◌then◌else◌,
}

-- What the callbacks of one leader election leave behind: whether they cancelled its context, and
-- the variable `innerErr` of `Run`.
pub record Left : Type 0 where
  pub cancelled : Bool
  pub inner_err : Option Error

-- Whether the election loop has ended, or this node still leads and renews its lease.
pub data Election : Type 0 where
  stopped : Left → Election
  leading : Election

pub record Host : Type 1 where
  pub State : Type 0
  -- CoreV1().Nodes().Get of this node
  pub get_node : Exec State (Unit {0})
  -- drain.RunCordonOrUncordon and drain.RunNodeDrain
  pub run_cordon_or_uncordon : Bool → Exec State (Unit {0})
  pub run_node_drain : Exec State (Unit {0})
  -- wait.ExponentialBackoff over any state, from its number of steps
  pub exponential_backoff : (S : Type 0) → ℕ → Exec S Bool → Exec S (Unit {0})
  -- leaderelection.NewLeaderElector, and Run of the elector from its callback `OnStartedLeading`
  pub new_leader_elector : Exec State (Unit {0})
  pub elector_run : (State → Left × State) → State → Election × State
  -- Get of the lease, and Update of it with no holder
  pub lease_get : Exec State (Unit {0})
  pub lease_clear : Exec State (Unit {0})

-- What the code relies on. The retry loop checks its condition once for each step, until it holds
-- or fails. The elector waits for the lease, calls back, and ends when its context is cancelled, or
-- before that when the lease is lost; otherwise it does not end. What it does where the lease is lost
-- is not said.
pub record IsLawful (H : Host) : Type 1 where
  pub backoff_zero :
      (S : Type 0) (f : Exec S Bool) (s : S)
      → H.exponential_backoff S zero f s ≡ (err wait_timeout, s)
  pub backoff_suc :
      (S : Type 0) (n : ℕ) (f : Exec S Bool) (s : S)
      → H.exponential_backoff S (suc n) f s
        ≡ handle f (λ found. if found then pure tt else H.exponential_backoff S n f) raise s
  pub acquired : H.State → H.State
  pub lease_lost : H.State → Bool
  pub run_cancelled :
      (f : H.State → Left × H.State) (s : H.State)
      → (f (acquired s)).0.cancelled ≡ true
      → lease_lost (f (acquired s)).1 ≡ false
      → H.elector_run f s ≡ (stopped (f (acquired s)).0, (f (acquired s)).1)
  pub run_leading :
      (f : H.State → Left × H.State) (s : H.State)
      → (f (acquired s)).0.cancelled ≡ false
      → lease_lost (f (acquired s)).1 ≡ false
      → H.elector_run f s ≡ (leading, (f (acquired s)).1)

-- How `Run` ends: it returns, or it does not, since the node goes on leading.
pub data Outcome : Type 0 where
  returned : Option Error → Outcome
  still_leading : Outcome

-- The variable `e` of the retries is `nil` before the first failure.
abbrev pub return_e : Option Error → Result (Unit {0})
return_e none = ok tt
return_e (some e) = err e

module _ (H : Host) where
  open H use {State}

  -- What follows the retry loop: `e` is returned if the loop timed out.
  unfoldable pub finish : Result (Unit {0}) × (State × Option Error) → Result (Unit {0}) × State
  finish (ok u, (s, e)) = (ok u, s)
  finish (err wait_timeout, (s, e)) = (return_e e, s)
  finish (err x, (s, e)) = (err x, s)

  -- The condition `f` of `cordonAndDrain`.
  unfoldable pub drain_attempt : Exec (State × Option Error) Bool
  drain_attempt (s, e) =
      handle (H.run_cordon_or_uncordon true)
        (λ _.
          handle H.run_node_drain (λ _ s'. (ok true, (s', e))) (λ x s'. (ok false, (s', some x))))
        (λ x s'. (ok false, (s', some x))) s

  unfoldable pub cordon_and_drain : Exec State (Unit {0})
  cordon_and_drain =
      handle H.get_node
        (λ _ s. finish (H.exponential_backoff (State × Option Error) 5 drain_attempt (s, none)))
        raise

  -- The condition `f` of `uncordon`.
  unfoldable pub uncordon_attempt : Exec (State × Option Error) Bool
  uncordon_attempt (s, e) =
      handle (H.run_cordon_or_uncordon false) (λ _ s'. (ok true, (s', e)))
        (λ x s'. (ok false, (s', some x))) s

  unfoldable pub uncordon : Exec State (Unit {0})
  uncordon =
      handle H.get_node
        (λ _ s. finish (H.exponential_backoff (State × Option Error) 5 uncordon_attempt (s, none)))
        raise

  -- The closure `uncordonAndFreeLeadership`, from the value of `innerErr` before it.
  unfoldable pub uncordon_and_free_leadership : Option Error → State → Left × State
  uncordon_and_free_leadership inner =
      handle uncordon (λ _ s. (record { cancelled = true; inner_err = inner }, s))
        (λ e s. (record { cancelled = true; inner_err = some e }, s))

  -- The worker function and what follows it.
  unfoldable pub work : (State → Bool × State) → Bool → State → Left × State
  work f drain s =
      let (perform_uncordon, s') = f s in
      if drain && perform_uncordon
      then uncordon_and_free_leadership none s'
      else (record { cancelled = false; inner_err = none }, s')

  -- The callback `OnStartedLeading`.
  unfoldable pub on_started_leading : (State → Bool × State) → Bool → State → Left × State
  on_started_leading f drain =
      if drain
      then handle cordon_and_drain (λ _. work f drain) (λ e. uncordon_and_free_leadership (some e))
      else work f drain

  -- The deferred function of `Run`, which clears the holder of the lease.
  unfoldable pub release : State → State
  release = handle H.lease_get (λ _ s. (H.lease_clear s).1) (λ e s. s)

  unfoldable pub ended : Election × State → Outcome × State
  ended (stopped left, s) = (returned left.inner_err, release s)
  ended (leading, s) = (still_leading, s)

  unfoldable pub run : (State → Bool × State) → Bool → State → Outcome × State
  run f drain =
      handle H.new_leader_elector (λ _ s. ended (H.elector_run (on_started_leading f drain) s))
        (λ e s. (returned (some e), release s))
