-- ===== src/RateLimiter.antt =====
-- src/rate_limiter.c over numbers that are parameters. A reading of the clock is an argument of the
-- call that makes it. `rate_limiter_wait` sleeps for the time that `rate_limiter_wait_nosleep` gives.
use bindfs.Base.{ℕ, Bool, if◌then◌else◌}

-- The operations on `double` that the file uses: sums, differences, the quotient of a size and a
-- rate, and the comparison; 0 and `rate_limiter_idle_credit` (-0.2).
pub record Numbers : Type 1 where
  pub Double : Type 0
  pub plus : Double → Double → Double
  pub minus : Double → Double → Double
  pub size_by_rate : ℕ → Double → Double
  pub is_less : Double → Double → Bool
  pub zero_seconds : Double
  pub rate_limiter_idle_credit : Double

module _ (nums : Numbers) where
  pub record RateLimiter : Type 0 where
    pub rate : nums.Double
    pub last_modified : nums.Double
    pub accumulated_sleep_time : nums.Double

  unfoldable pub rate_limiter_init : nums.Double → nums.Double → RateLimiter
  rate_limiter_init rate now = record {
    rate = rate;
    last_modified = now;
    accumulated_sleep_time = nums.rate_limiter_idle_credit;
  }

  -- A clock that went back counts as one that stood still.
  unfoldable pub elapsed_since : nums.Double → nums.Double → nums.Double
  elapsed_since now last =
      let elapsed = nums.minus now last in
      if nums.is_less elapsed nums.zero_seconds then nums.zero_seconds else elapsed

  -- Idle time is credited up to a limit.
  unfoldable pub limited_credit : nums.Double → nums.Double
  limited_credit time =
      if nums.is_less time nums.rate_limiter_idle_credit
      then nums.rate_limiter_idle_credit
      else time

  unfoldable pub rate_limiter_wait_nosleep :
      RateLimiter → ℕ → nums.Double → nums.Double × RateLimiter
  unfolding elapsed_since limited_credit
  rate_limiter_wait_nosleep limiter size now =
      let time_to_add = nums.size_by_rate size limiter.rate in
      let elapsed = elapsed_since now limiter.last_modified in
      let time_to_sleep =
        nums.plus (limited_credit (nums.minus limiter.accumulated_sleep_time elapsed))
          time_to_add in
      (
        time_to_sleep,
        record limiter { accumulated_sleep_time = time_to_sleep; last_modified = now },
      )
