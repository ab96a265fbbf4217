-- ===== src/Upstream/Triton/Tests.antt =====
-- A session whose subscription is refused.
use feed_mux.Prelude.{
  ℕ, ◌*◌, ◌≡◌, refl, [], ◌∷◌, true, false, none, some, Text, codes, Result, ok, err, contains, Bool,
  subst, ap, arith, ◌≤◌,
}
use feed_mux.Prelude.Words.{trim}
use feed_mux.Config.{Config, from_env}
use feed_mux.Fanout.{FeedPayload}
use feed_mux.Fanout.Tally.{live}
use feed_mux.Reconnect.{
  ReconnectBackoff, new_backoff, nanos_per_sec, nanos_per_ms, next_delay, retryable,
  classify_grpc_stream_error, grpc_error_summary, to_ascii_lowercase,
}
use feed_mux.Upstream.Live.{triton_status}
use feed_mux.Upstream.Triton.{
  UpdateRow, TritonScript, TritonShared, running, halted, run_triton_session, run_triton_loop,
  normalize_grpc_endpoint, mark_triton_disconnected,
}
use feed_mux.Reconnect.Backoff.{new_backoff-IsValid}
use feed_mux.Upstream.Triton.Alive.{IsTolerable, run_triton_loop-IsAlive}
use feed_mux.Upstream.Triton.Halt.{denied, run_triton_loop-auth_denied}

abbrev feed_json : FeedPayload UpdateRow → Result Text Text
feed_json payload = ok payload.event

abbrev fresh : TritonShared ℕ
fresh = record { connected = false; auth_blocked = false; relayed = []; redis = [] }

abbrev refusal : Text
refusal = codes "Status: 403"

abbrev script : TritonScript ℕ
script = record { allowed = true; connecting = some refusal; updates = []; stream_end = none }

abbrev backoff : ReconnectBackoff
backoff = new_backoff (5 * nanos_per_sec) (30 * nanos_per_sec)

abbrev config : Config
config = from_env (λ s. none) (λ key. none)

abbrev stopped : TritonShared ℕ
stopped =
    denied feed_json (live (codes "feed:350")) true (codes "grpc.example.test")
      (run_triton_session feed_json (live (codes "feed:350")) true (codes "grpc.example.test")
        script
        (mark_triton_disconnected feed_json (live (codes "feed:350")) true
          (codes "grpc.example.test") fresh)).0

run_triton_loop-auth_denied_example :
    (run_triton_loop feed_json
        (live (codes "feed:350"))
        true
        (codes "grpc.example.test")
        (script ∷ script ∷ [])
        (fresh, backoff, running)
      ≡ (stopped, backoff, halted))
    × ((triton_status config stopped.auth_blocked stopped.connected).mode
        ≡ codes "error/auth-denied")
    × ((triton_status config stopped.auth_blocked stopped.connected).connected ≡ false)
unfolding run_triton_session normalize_grpc_endpoint trim classify_grpc_stream_error
    grpc_error_summary contains to_ascii_lowercase
run_triton_loop-auth_denied_example =
    run_triton_loop-auth_denied feed_json (live (codes "feed:350")) true (codes "grpc.example.test")
      script (script ∷ []) fresh backoff refusal
      (codes "HTTP 403 Forbidden (check TRITON_GRPC_TOKEN/plan)") config refl refl refl

-- A session that the rate limiter does not allow.
abbrev limited : TritonScript ℕ
limited = record script { allowed = false }

abbrev limit_text : Text
limit_text = codes "rate limit exceeded for Triton subscribe"

limited-IsTolerable :
    IsTolerable feed_json (live (codes "feed:350")) true (codes "grpc.example.test") limited
unfolding run_triton_session classify_grpc_stream_error grpc_error_summary contains
    to_ascii_lowercase
limited-IsTolerable s e h =
    subst
      (λ t.
        (classify_grpc_stream_error t ≡ retryable)
        × ((text : Text) × (grpc_error_summary t ≡ some text)))
      (ap (λ r. error_of r) h) (refl, (limit_text, refl))
  where
    error_of : Result Text Bool → Text
    error_of (ok received) = []
    error_of (err t) = t

run_triton_loop-IsAlive_example :
    ((run_triton_loop feed_json
        (live (codes "feed:350"))
        true
        (codes "grpc.example.test")
        (limited ∷ limited ∷ [])
        (fresh, backoff, running)).2
      ≡ running)
    × (next_delay
          (run_triton_loop feed_json
            (live (codes "feed:350"))
            true
            (codes "grpc.example.test")
            (limited ∷ limited ∷ [])
            (fresh, backoff, running)).1
        ≤ backoff.cap_delay)
    × (nanos_per_ms
        ≤ next_delay
            (run_triton_loop feed_json
              (live (codes "feed:350"))
              true
              (codes "grpc.example.test")
              (limited ∷ limited ∷ [])
              (fresh, backoff, running)).1)
run_triton_loop-IsAlive_example =
    run_triton_loop-IsAlive feed_json (live (codes "feed:350")) true (codes "grpc.example.test")
      (limited ∷ limited ∷ []) fresh backoff (limited-IsTolerable, (limited-IsTolerable, tt))
      (new_backoff-IsValid (5 * nanos_per_sec) (30 * nanos_per_sec) (omega arith) (omega arith))
