-- ===== src/Service/RateLimit.antt =====
-- src/rate_limit.rs: the rate limiter of an upstream. The crate governor is a parameter: the states of
-- its limiters, the fresh state for a quota, and the answer of `check` at a time.
use feed_mux.Prelude.{ℕ, max, Bool, Text}

-- The period of `with_period` in seconds, in which one cell is replenished, and the burst.
pub record Quota : Type 0 where
  pub period_secs : ℕ
  pub burst : ℕ

pub record Governor : Type 1 where
  pub Limiter : Type 0
  pub direct : Quota → Limiter
  pub check : ℕ → Limiter → Limiter × Bool

-- The burst is never 0, so that the fallback of `NonZeroU32::new` is not reached.
unfoldable pub quota_of : ℕ → Quota
quota_of requests_per_second = record { period_secs = 1; burst = max requests_per_second 1 }

pub record UpstreamRateLimiter (governor : Governor) : Type 0 where
  pub inner : Governor.Limiter governor
  pub label : Text

module _ (governor : Governor) where
  unfoldable pub new_limiter : Text → ℕ → UpstreamRateLimiter governor
  unfolding quota_of
  new_limiter label requests_per_second = record {
    inner = governor.direct (quota_of requests_per_second);
    label = label;
  }

  unfoldable pub try_acquire :
      ℕ → UpstreamRateLimiter governor → UpstreamRateLimiter governor × Bool
  try_acquire now limiter =
      let (inner, allowed) = governor.check now limiter.inner in
      (record limiter { inner = inner }, allowed)
