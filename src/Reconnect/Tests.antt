-- ===== src/Reconnect/Tests.antt =====
-- Runs of the backoff and of the error summaries, and the theorems at concrete inputs.
use feed_mux.Prelude.{
  ◌*◌, ◌≡◌, ◌^◌, refl, min, arith, [], ◌∷◌, ◌++◌, none, Text, replicate, contains,
}
use feed_mux.Reconnect.{
  ReconnectBackoff, new_backoff, reset, next_delay, nanos_per_sec, to_ascii_lowercase,
  grpc_error_summary,
}
use feed_mux.Reconnect.Backoff.{waits, next_delay-waits}
use feed_mux.Reconnect.Errors.{grpc_error_summary_panics}

-- The backoff of the Titan loop.
abbrev titan_backoff : ReconnectBackoff
titan_backoff = new_backoff (5 * nanos_per_sec) (30 * nanos_per_sec)

next_delay-waits_example :
    (next_delay (waits 3 titan_backoff) ≡ min (5 * nanos_per_sec * 2 ^ 3) (30 * nanos_per_sec))
    × (next_delay (reset (waits 3 titan_backoff)) ≡ 5 * nanos_per_sec)
next_delay-waits_example =
    next_delay-waits 3 (5 * nanos_per_sec) (30 * nanos_per_sec) (omega arith) (omega arith)
      (omega arith)

-- The body of a response, 400 bytes long.
abbrev page : Text
page = replicate 400 b'x'

-- 199 letters, then a letter of two bytes.
abbrev accented : Text
accented = replicate 199 b'a' ++ (0xe9 ∷ [])

grpc_error_summary_panics_example : grpc_error_summary accented ≡ none
unfolding contains to_ascii_lowercase
grpc_error_summary_panics_example =
    grpc_error_summary_panics (replicate 199 b'a') [] 0xe9 refl (omega arith) (omega arith)
