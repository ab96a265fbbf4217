-- ===== src/Reconnect.antt =====
-- src/ws_reconnect.rs: the backoff of the reconnect loops, and the classification of errors. A
-- duration is a number of nanoseconds. `WsError` and its parts are the crate tungstenite's; a
-- constructor carries what the crate's `Display` prints for it.
pub mod Backoff
pub mod Errors
pub mod Log
mod Tests
use feed_mux.Prelude.{
  ℕ, ◌+◌, ◌-◌, ◌*◌, ◌^◌, max, min, List, [], ◌∷◌, ◌++◌, map, Bool, true, false, ◌&&◌, ◌||◌, Option,
  none, some, if◌then◌else◌, leb, ltb, Text, codes, contains, utf8_len, byte_prefix,
}

abbrev pub nanos_per_ms : ℕ
nanos_per_ms = 1000000

abbrev pub nanos_per_sec : ℕ
nanos_per_sec = 1000000000

-- `Duration::MAX`: 2^64 - 1 seconds and 999999999 nanoseconds.
abbrev pub max_duration : ℕ
max_duration = 2 ^ 64 * nanos_per_sec - 1

abbrev pub healthy_session_threshold : ℕ
healthy_session_threshold = 5 * nanos_per_sec

pub record ReconnectBackoff : Type 0 where
  pub initial : ℕ
  pub cap_delay : ℕ
  pub current : ℕ

unfoldable pub new_backoff : ℕ → ℕ → ReconnectBackoff
new_backoff initial cap_delay =
    let first = max initial nanos_per_ms in
    record { initial = first; cap_delay = max cap_delay first; current = first }

unfoldable pub reset : ReconnectBackoff → ReconnectBackoff
reset b = record b { current = b.initial }

unfoldable pub next_delay : ReconnectBackoff → ℕ
next_delay b = b.current

-- The state after the sleep; `saturating_mul(2)` stops at `Duration::MAX`.
unfoldable pub wait : ReconnectBackoff → ReconnectBackoff
wait b = record b { current = min (min (b.current * 2) max_duration) b.cap_delay }

unfoldable pub should_reset_backoff : Bool → ℕ → Bool
should_reset_backoff received_data connected_for =
    received_data || leb healthy_session_threshold connected_for

pub data WsDisconnectKind : Type 0 where
  clean_close abrupt_close transport_error : WsDisconnectKind

pub data LogLevel : Type 0 where
  info warn : LogLevel

unfoldable pub log_level : WsDisconnectKind → LogLevel
log_level clean_close = info
log_level abrupt_close = warn
log_level transport_error = warn

unfoldable pub message : WsDisconnectKind → Text
message clean_close = codes "WebSocket closed cleanly"
message abrupt_close = codes "WebSocket disconnected abruptly (no close frame)"
message transport_error = codes "WebSocket session error"

pub data ProtocolError : Type 0 where
  reset_without_closing_handshake : ProtocolError
  send_after_closing : ProtocolError
  other_protocol : ProtocolError

pub data IoErrorKind : Type 0 where
  connection_reset connection_aborted broken_pipe unexpected_eof other_kind : IoErrorKind

pub data WsError : Type 0 where
  connection_closed already_closed : WsError
  protocol : ProtocolError → Text → WsError
  io : IoErrorKind → Text → WsError
  tls : Text → WsError
  url : Text → WsError
  capacity : Text → WsError
  write_buffer_full : Text → WsError
  attack_attempt : WsError
  other_error : Text → WsError

unfoldable pub is_connection_reset : IoErrorKind → Bool
is_connection_reset connection_reset = true
is_connection_reset connection_aborted = true
is_connection_reset broken_pipe = true
is_connection_reset unexpected_eof = true
is_connection_reset other_kind = false

unfoldable pub classify_ws_error : WsError → WsDisconnectKind
unfolding is_connection_reset
classify_ws_error connection_closed = abrupt_close
classify_ws_error already_closed = abrupt_close
classify_ws_error (protocol reset_without_closing_handshake d) = abrupt_close
classify_ws_error (protocol send_after_closing d) = clean_close
classify_ws_error (io kind d) = if is_connection_reset kind then abrupt_close else transport_error
classify_ws_error _ = transport_error

unfoldable pub ws_error_summary : WsError → Text
ws_error_summary connection_closed = codes "connection closed"
ws_error_summary already_closed = codes "already closed"
ws_error_summary (protocol p d) = codes "protocol: " ++ d
ws_error_summary (io kind d) = codes "io: " ++ d
ws_error_summary (tls d) = codes "tls: " ++ d
ws_error_summary (url d) = codes "invalid url"
ws_error_summary (capacity d) = codes "capacity: " ++ d
ws_error_summary (write_buffer_full d) = codes "write buffer full"
ws_error_summary attack_attempt = codes "attack attempt"
ws_error_summary (other_error d) = d

abbrev pub is_transport_error : WsDisconnectKind → Bool
is_transport_error transport_error = true
is_transport_error _ = false

unfoldable pub is_expected_disconnect : WsError → Bool
unfolding classify_ws_error
is_expected_disconnect e = elim (classify_ws_error e) [
  | clean_close ↦ true
  | abrupt_close ↦ true
  | transport_error ↦ false
]

pub data GrpcStreamFailure : Type 0 where
  retryable auth_denied : GrpcStreamFailure

abbrev lower : ℕ → ℕ
lower c = if leb b'A' c && leb c b'Z' then c + 32 else c

unfoldable pub to_ascii_lowercase : Text → Text
to_ascii_lowercase = map lower

unfoldable pub classify_grpc_stream_error : Text → GrpcStreamFailure
classify_grpc_stream_error err =
    let low = to_ascii_lowercase err in
    if contains low (codes "403 forbidden")
      || contains low (codes "status: 403")
      || contains low (codes "401 unauthorized")
      || contains low (codes "status: 401")
      || contains low (codes "permissiondenied")
      || contains low (codes "unauthenticated")
      || contains low (codes "access denied")
      || (contains low (codes "invalid compression flag") && contains low (codes "403"))
    then auth_denied
    else retryable

-- `…`, three bytes of UTF-8.
abbrev ellipsis : ℕ
ellipsis = 0x2026

-- None is the panic of `&err[..200]` inside a character.
unfoldable pub grpc_error_summary : Text → Option Text
grpc_error_summary err =
    let low = to_ascii_lowercase err in
    if contains low (codes "403 forbidden") || contains low (codes "status: 403")
    then some (codes "HTTP 403 Forbidden (check TRITON_GRPC_TOKEN/plan)")
    else if contains low (codes "401 unauthorized") || contains low (codes "status: 401")
    then some (codes "HTTP 401 Unauthorized (check TRITON_GRPC_TOKEN)")
    else if contains low (codes "invalid compression flag") && contains low (codes "403")
    then some (codes "HTTP 403 rejected as non-gRPC body (check TRITON_GRPC_TOKEN/plan)")
    else if ltb 200 (utf8_len err)
    then elim (byte_prefix 200 err) [ none ↦ none | some p ↦ some (p ++ (ellipsis ∷ [])) ]
    else some err
