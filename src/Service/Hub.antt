-- ===== src/Service/Hub.antt =====
-- src/upstream/mod.rs: what the periodic poll does to the upstreams. Only the limiters of Titan and
-- Triton change; the rest of a poll is a line of the log.
use feed_mux.Prelude.{ℕ, Bool, true, false, not, if◌then◌else◌, codes}
use feed_mux.Config.{Config, Base58Decode}
use feed_mux.Upstream.Live.{TitanLiveState, TritonLiveState, resolve_titan, resolve_triton}
use feed_mux.Service.RateLimit.{Governor, UpstreamRateLimiter, new_limiter, try_acquire}

pub record Limiters (governor : Governor) : Type 0 where
  pub titan : UpstreamRateLimiter governor
  pub triton : UpstreamRateLimiter governor

-- Whether the live state is the ready one.
abbrev pub is_titan_ready : TitanLiveState → Bool
is_titan_ready TitanLiveState.ready = true
is_titan_ready _ = false

abbrev pub is_triton_ready : TritonLiveState → Bool
is_triton_ready TritonLiveState.ready = true
is_triton_ready _ = false

module _ (governor : Governor) (decode : Base58Decode) (config : Config) where
  -- The limiters that the constructors of the upstreams make.
  unfoldable pub new_limiters : Limiters governor
  unfolding new_limiter
  new_limiters = record {
    titan = new_limiter governor (codes "titan_ws") config.titan_rate_limit_rps;
    triton = new_limiter governor (codes "triton_grpc") config.triton_rate_limit_rps;
  }

  unfoldable pub poll_titan : ℕ → UpstreamRateLimiter governor → UpstreamRateLimiter governor
  unfolding resolve_titan try_acquire
  poll_titan now limiter =
      if not config.enable_titan_ws
      then limiter
      else if config.dry_run
      then (try_acquire governor now limiter).0
      else if not (is_titan_ready (resolve_titan decode config))
      then limiter
      else (try_acquire governor now limiter).0

  unfoldable pub poll_triton : ℕ → UpstreamRateLimiter governor → UpstreamRateLimiter governor
  unfolding resolve_triton try_acquire
  poll_triton now limiter =
      if not config.enable_triton_grpc
      then limiter
      else if config.dry_run
      then (try_acquire governor now limiter).0
      else if not (is_triton_ready (resolve_triton config))
      then limiter
      else (try_acquire governor now limiter).0

  unfoldable pub poll_stubs : ℕ → Limiters governor → Limiters governor
  unfolding poll_titan poll_triton
  poll_stubs now limiters =
      let polled =
        if config.enable_triton_grpc
        then record limiters { triton = poll_triton now limiters.triton }
        else limiters in
      if config.enable_titan_ws
      then record polled { titan = poll_titan now polled.titan }
      else polled
