-- ===== src/Reconnect/Log.antt =====
-- src/ws_reconnect.rs: the log lines of a reconnect, as data. `Duration::as_secs` is a division.
use feed_mux.Prelude.{
  ℕ, ◌/◌, ◌≡◌, refl, List, [], ◌∷◌, ◌++◌, Option, none, some, Text, codes, length,
}
use feed_mux.Prelude.Decimal.{to_string}
use feed_mux.Reconnect.{
  LogLevel, info, warn, WsDisconnectKind, clean_close, abrupt_close, transport_error, log_level,
  message, nanos_per_sec,
}

pub record LogLine : Type 0 where
  pub level : LogLevel
  pub upstream : Text
  pub reason : Option Text
  pub delay_secs : ℕ
  pub text : Text

abbrev as_secs : ℕ → ℕ
as_secs delay = delay / nanos_per_sec

abbrev reconnecting : Text → ℕ → Text
reconnecting what secs = what ++ codes "; reconnecting in " ++ to_string secs ++ codes "s"

unfoldable pub log_grpc_reconnect : Text → ℕ → Option Text → List LogLine
log_grpc_reconnect upstream delay (some detail) =
    record {
      level = warn;
      upstream = upstream;
      reason = some detail;
      delay_secs = as_secs delay;
      text = reconnecting (codes "Triton gRPC stream error") (as_secs delay);
    }
    ∷ []
log_grpc_reconnect upstream delay none =
    record {
      level = warn;
      upstream = upstream;
      reason = none;
      delay_secs = as_secs delay;
      text = reconnecting (codes "Triton gRPC stream ended") (as_secs delay);
    }
    ∷ []

-- The two arms that print differ only in the level.
abbrev line_at : LogLevel → Text → WsDisconnectKind → ℕ → Option Text → LogLine
line_at level upstream kind delay detail = record {
  level = level;
  upstream = upstream;
  reason = detail;
  delay_secs = as_secs delay;
  text = reconnecting (message kind) (as_secs delay);
}

unfoldable pub log_ws_reconnect : Text → WsDisconnectKind → ℕ → Option Text → List LogLine
unfolding log_level message
log_ws_reconnect upstream kind delay detail = elim (log_level kind) [
  | info ↦ line_at info upstream kind delay detail ∷ []
  | warn ↦ line_at warn upstream kind delay detail ∷ []
]

-- Exactly one line for each disconnect.
log_ws_reconnect_one :
    (upstream : Text) (kind : WsDisconnectKind) (delay : ℕ) (detail : Option Text)
    → length (log_ws_reconnect upstream kind delay detail) ≡ 1
unfolding log_ws_reconnect log_level
log_ws_reconnect_one upstream clean_close delay detail = refl
log_ws_reconnect_one upstream abrupt_close delay detail = refl
log_ws_reconnect_one upstream transport_error delay detail = refl

log_grpc_reconnect_one :
    (upstream : Text) (delay : ℕ) (detail : Option Text)
    → length (log_grpc_reconnect upstream delay detail) ≡ 1
unfolding log_grpc_reconnect
log_grpc_reconnect_one upstream delay none = refl
log_grpc_reconnect_one upstream delay (some d) = refl
