-- ===== src/Drain/Settings/Laws.antt =====
-- Which durations of the lease a leader election takes.
use openshift_operator.Base.{
  ℕ, suc, ◌+◌, ◌*◌, ◌%◌, ◌≤◌, ◌<◌, ◌≡◌, refl, arith, Bool, true, ◌&&◌, ltb, leb, ℤ, pos, negsuc,
  ◌*ℤ◌, ltz, parse_signed, is_int64, wrap_int64, String, ◌==◌, eq_iff, some, sym, ap, ◌∙◌,
  Bool-cases, inl, inr,
}
use openshift_operator.Drain.Settings.{
  parse_or_default, setting, seconds, LeaderElectionConfig, new_drain_helper,
}

-- What `leaderelection.NewLeaderElector` asks of its configuration: the lease lasts longer than the
-- deadline of the renewal, that lasts longer than the period of the retries times 1.2, and all three
-- are positive.
unfoldable pub is_valid : LeaderElectionConfig → Bool
is_valid c =
    ltz c.renew_deadline c.lease_duration
    && (ltz (c.retry_period *ℤ 6) (c.renew_deadline *ℤ 5)
        && (ltz (pos 0) c.lease_duration
            && (ltz (pos 0) c.renew_deadline && ltz (pos 0) c.retry_period)))

-- The numbers of seconds whose nanoseconds a 64-bit integer holds.
unfoldable pub fits : ℤ → Bool
fits (pos n) = leb n 9223372036
fits (negsuc n) = ltb n 9223372036

wrap_pos : (m : ℕ) → m ≤ 9223372036854775807 → wrap_int64 (pos m) ≡ pos m
unfolding wrap_int64
wrap_pos m h = let small : m % 18446744073709551616 ≡ m = omega arith in rw small (ground arith)

wrap_negsuc : (m : ℕ) → m ≤ 9223372036854775807 → wrap_int64 (negsuc m) ≡ negsuc m
unfolding wrap_int64
wrap_negsuc m h = let small : m % 18446744073709551616 ≡ m = omega arith in rw small (ground arith)

neg_times : (n : ℕ) → negsuc n *ℤ 1000000000 ≡ negsuc (n * 1000000000 + 999999999)
unfolding ◌*ℤ◌
neg_times n =
    let e : suc n * 1000000000 ≡ suc (n * 1000000000 + 999999999) = omega arith in rw e refl

seconds_exact : (z : ℤ) → fits z ≡ true → seconds z ≡ z *ℤ 1000000000
unfolding fits seconds ◌*ℤ◌
seconds_exact (pos n) h =
    let small : n ≤ 9223372036 = ground arith in wrap_pos (n * 1000000000) (omega arith)
seconds_exact (negsuc n) h =
    let small : n < 9223372036 = ground arith in
    rw (neg_times n) (wrap_negsuc (n * 1000000000 + 999999999) (omega arith))

-- A text that is a number of an int64 sets it.
setting_lem :
    (s : String) (default z : ℤ)
    → parse_signed s ≡ some z
    → is_int64 z ≡ true
    → setting s default ≡ z
unfolding setting parse_or_default parse_signed
setting_lem s default z h fit = elim (Bool-cases (s == "")) [
  | inl e ↦
      let empty : s ≡ "" = (eq_iff s "").0 e in
      absurd (ground (arith, sym (ap parse_signed empty) ∙ h))
  | inr e ↦ ground (arith, e, h, fit)
]

fits_int64 : (z : ℤ) → fits z ≡ true → is_int64 z ≡ true
unfolding fits
fits_int64 (pos n) h = ground arith
fits_int64 (negsuc n) h = ground arith

longer : (z : ℤ) → ltz (pos 15000000000) (z *ℤ 1000000000) ≡ ltz (pos 15) z
unfolding ltz ◌*ℤ◌
longer (pos n) = ground arith
longer (negsuc n) = rw (neg_times n) refl

positive : (z : ℤ) → ltz (pos 15) z ≡ true → ltz (pos 0) (z *ℤ 1000000000) ≡ true
unfolding ltz ◌*ℤ◌
positive (pos n) h = ground arith
positive (negsuc n) h = absurd (ground (arith, h))

deadline : seconds (pos 15) ≡ pos 15000000000
unfolding seconds wrap_int64 ◌*ℤ◌
deadline = refl

period : seconds (pos 5) ≡ pos 5000000000
unfolding seconds wrap_int64 ◌*ℤ◌
period = refl

-- The other demands hold of the deadline and the period of the code.
others_hold :
    (ltz (pos 5000000000 *ℤ 6) (pos 15000000000 *ℤ 5) ≡ true)
    × (ltz (pos 0) (pos 15000000000) ≡ true)
    × (ltz (pos 0) (pos 5000000000) ≡ true)
unfolding ltz ◌*ℤ◌
others_hold = (refl, refl, refl)

-- Where the variable of the lease duration is a number of seconds whose nanoseconds a 64-bit integer
-- holds, the lease lasts just so long, and the configuration of the election is valid just where the
-- number is more than 15.
pub new_drain_helper-is_valid :
    (getenv : String → String) (node_name namespace : String) (z : ℤ)
    → parse_signed (getenv "LEASE_DURATION_SECONDS") ≡ some z
    → fits z ≡ true
    → let c = (new_drain_helper getenv node_name namespace).leader_election_config in
      (c.lease_duration ≡ z *ℤ 1000000000) × (is_valid c ≡ ltz (pos 15) z)
unfolding new_drain_helper is_valid
new_drain_helper-is_valid getenv node_name namespace z h fit =
    let s = getenv "LEASE_DURATION_SECONDS" in
    let lease : seconds (setting s (pos 600)) ≡ z *ℤ 1000000000 =
      ap seconds (setting_lem s (pos 600) z h (fits_int64 z fit)) ∙ seconds_exact z fit in
    let (jitter, some_deadline, some_period) = others_hold in
    (
      lease,
      rw (lease, deadline, period)
          (ground (arith, jitter, some_deadline, some_period, longer z, positive z)),
    )
