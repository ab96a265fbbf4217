-- ===== src/Upstream/Lines.antt =====
-- src/upstream/titan.rs, triton.rs and triton_shred.rs: the lines that the constructors log in each live
-- state.
use feed_mux.Prelude.{List, [], ◌∷◌, ◌++◌, Option, if◌then◌else◌, Text, codes}
use feed_mux.Upstream.Live.{
  TitanLiveState, TritonLiveState, ShredLiveState, missing_ws_url, missing_wallet_pubkey,
  invalid_wallet_pubkey, missing_grpc_url, missing_vaults, keep_port_conflict, invalid_bind, blank,
}

pub data Severity : Type 0 where
  error_line warn_line info_line : Severity

-- A line of the log, without its numbers.
pub record LogLine : Type 0 where
  pub severity : Severity
  pub upstream : Text
  pub message : Text

abbrev titan_line : Severity → Text → List LogLine
titan_line severity message =
    record { severity = severity; upstream = codes "titan_ws"; message = message } ∷ []

unfoldable pub titan_lines : TitanLiveState → List LogLine
titan_lines missing_ws_url =
    titan_line error_line
      (codes "Titan WebSocket enabled but TITAN_WS_URL is not set; refusing to connect")
titan_lines missing_wallet_pubkey = titan_line error_line (
    codes
      "Titan WebSocket enabled but TITAN_WALLET_PUBKEY is not set; refusing to connect (wallet pubkey required for quote subscribe/compile)")
titan_lines invalid_wallet_pubkey = titan_line error_line (
    codes
      "Titan WebSocket enabled but TITAN_WALLET_PUBKEY is invalid; refusing to connect (wallet pubkey required for quote subscribe/compile)")
titan_lines TitanLiveState.ready =
    titan_line info_line
      (codes "Titan WebSocket live mode configured (Bot 350 wallet pubkey only — never KEEP)")
titan_lines _ = []

abbrev triton_line : Severity → Text → List LogLine
triton_line severity message =
    record { severity = severity; upstream = codes "triton_grpc"; message = message } ∷ []

unfoldable pub triton_lines : Option Text → TritonLiveState → List LogLine
triton_lines token missing_grpc_url =
    triton_line error_line
      (codes "Triton gRPC enabled but TRITON_GRPC_URL is not set; refusing to connect")
triton_lines token TritonLiveState.ready =
    (if blank token
      then triton_line warn_line
          (codes "TRITON_GRPC_TOKEN is not set; Triton may reject the stream with 403")
      else [])
    ++ triton_line info_line
        (codes "Triton gRPC live mode configured (Bot 350 local bind — never KEEP)")
triton_lines token _ = []

abbrev shred_line : Severity → Text → List LogLine
shred_line severity message =
    record { severity = severity; upstream = codes "triton_shred_udp"; message = message } ∷ []

unfoldable pub shred_lines : ShredLiveState → List LogLine
shred_lines missing_vaults =
    shred_line error_line
      (codes "Triton UDP shreds enabled but SHRED_WATCH_VAULTS is empty; refusing to bind")
shred_lines keep_port_conflict =
    shred_line error_line
      (codes "SHRED_BIND must not use port 8002 (KEEP arb-bot owns that socket forever)")
shred_lines invalid_bind = shred_line error_line (codes "invalid SHRED_BIND address")
shred_lines ShredLiveState.ready = shred_line info_line (
    codes "Triton UDP shred listener configured (Bot 350 dry eyes — separate bind from KEEP :8002)")
shred_lines _ = []
