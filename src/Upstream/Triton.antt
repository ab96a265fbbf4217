-- ===== src/Upstream/Triton.antt =====
-- src/upstream/triton.rs: a session of the Triton gRPC stream and the loop that reconnects. A session
-- is a `Script`: whether the rate limiter allows it, the error of building the client, connecting or
-- subscribing, and the updates up to the end of the stream. An error is its text. `U` stands for
-- `SubscribeUpdate`, and `feed_json` for serde_json.
pub mod Halt
pub mod Alive
pub mod Sends
mod Tests
use feed_mux.Prelude.{
  ℕ, ◌+◌, ◌%◌, ◌^◌, List, [], ◌∷◌, ◌++◌, Bool, true, false, ◌||◌, not, Option, none, some,
  if◌then◌else◌, Text, codes, Result, ok, err, is_empty, starts_with,
}
use feed_mux.Prelude.Words.{trim}
use feed_mux.Fanout.{
  Command, RedisFanout, FeedPayload, publish, record_triton_frame, set_triton_upstream_up,
}
use feed_mux.Reconnect.{
  ReconnectBackoff, reset, wait, GrpcStreamFailure, auth_denied, retryable,
  classify_grpc_stream_error, grpc_error_summary,
}

unfoldable pub normalize_grpc_endpoint : Text → Result Text Text
normalize_grpc_endpoint url =
    if is_empty (trim url)
    then err (codes "empty Triton gRPC URL")
    else if starts_with (trim url) (codes "http://") || starts_with (trim url) (codes "https://")
    then ok (trim url)
    else ok (codes "https://" ++ trim url)

pub data UpdateKind : Type 0 where
  slot ping other_update : UpdateKind

-- `ping` answers with whether the limiter allows the answer and the error of sending it.
pub record Update (U : Type 0) : Type 0 where
  pub body : U
  pub kind : UpdateKind
  pub now : ℕ
  pub now_text : Text
  pub reply : Option Text
  pub pong_allowed : Bool
  pub pong_error : Option Text

pub data TritonLocalEvent (U : Type 0) : Type 0 where
  update_event : U → TritonLocalEvent U
  upstream_connected : Bool → TritonLocalEvent U

pub record TritonShared (U : Type 0) : Type 0 where
  pub connected : Bool
  pub auth_blocked : Bool
  pub relayed : List (TritonLocalEvent U)
  pub redis : List Command

-- `stream_end` is the error that ends the stream; none is its end.
pub record TritonScript (U : Type 0) : Type 0 where
  pub allowed : Bool
  pub connecting : Option Text
  pub updates : List (Update U)
  pub stream_end : Option Text

-- Whether the task still runs, has halted on denied access, or has panicked.
pub data TaskState : Type 0 where
  running halted panicked : TaskState

abbrev pub is_slot : UpdateKind → Bool
is_slot slot = true
is_slot _ = false

pub record UpdateRow : Type 0 where
  pub kind : Text
  pub has_slot : Bool

module _ {U : Type 0} (feed_json : FeedPayload UpdateRow → Result Text Text) (fanout : RedisFanout)
    (has_relay : Bool) (grpc_url : Text) where
  abbrev relay_update : TritonLocalEvent U → TritonShared U → TritonShared U
  relay_update e s = record s { relayed = if has_relay then s.relayed ++ (e ∷ []) else s.relayed }

  abbrev set_up : Bool → TritonShared U → TritonShared U
  set_up up s =
      relay_update (upstream_connected up)
        (record s { connected = up; redis = s.redis ++ set_triton_upstream_up fanout up })

  unfoldable pub mark_triton_disconnected : TritonShared U → TritonShared U
  unfolding set_triton_upstream_up
  mark_triton_disconnected s = set_up false s

  unfoldable pub mark_triton_connected : TritonShared U → TritonShared U
  unfolding set_triton_upstream_up
  mark_triton_connected s = set_up true s

  unfoldable pub handle_triton_update : Update U → List Command
  unfolding record_triton_frame publish
  handle_triton_update u =
      record_triton_frame fanout u.now
      ++ (publish fanout feed_json
          (record {
            event = codes "triton.slot";
            source = codes "triton_grpc";
            ts = u.now_text;
            data_json = some (record { kind = codes "SubscribeUpdate"; has_slot = is_slot u.kind });
          })
          u.reply).0

  -- The error of answering a ping, if it is answered and the answer fails.
  unfoldable pub pong_failure : Update U → Option Text
  pong_failure u = elim (u.kind) [
    | slot ↦ none
    | ping ↦ if u.pong_allowed then u.pong_error else none
    | other_update ↦ none
  ]

  unfoldable pub on_update : Update U → TritonShared U → TritonShared U
  unfolding handle_triton_update
  on_update u s =
      let s' = relay_update (update_event u.body) s in
      record s' { redis = s'.redis ++ handle_triton_update u }

  -- The loop over the updates, with whether data was received.
  unfoldable pub update_loop :
      List (Update U) → Option Text → Bool → TritonShared U → TritonShared U × Result Text Bool
  unfolding on_update pong_failure
  update_loop [] none received s = (s, ok received)
  update_loop [] (some e) received s = (s, err (codes "Triton stream error: " ++ e))
  update_loop (u ∷ us) stream_end received s =
      let rest = update_loop us stream_end true (on_update u s) in
      elim (pong_failure u) [
        | some e ↦ (on_update u s, err (codes "Triton ping send failed: " ++ e))
        | none ↦ rest
      ]

  unfoldable pub finish_triton :
      TritonShared U × Result Text Bool → TritonShared U × Result Text Bool
  unfolding mark_triton_disconnected
  finish_triton (s, ok received) = (mark_triton_disconnected s, ok received)
  finish_triton (s, err e) = (s, err e)

  unfoldable pub run_triton_session :
      TritonScript U → TritonShared U → TritonShared U × Result Text Bool
  unfolding normalize_grpc_endpoint mark_triton_connected update_loop finish_triton
  run_triton_session script s =
      if not script.allowed
      then (s, err (codes "rate limit exceeded for Triton subscribe"))
      else elim (normalize_grpc_endpoint grpc_url) [
        | err e ↦ (s, err e)
        | ok endpoint ↦ elim (script.connecting) [
          | some e ↦ (s, err e)
          | none ↦
              finish_triton
                (update_loop script.updates script.stream_end false (mark_triton_connected s))
        ]
      ]

  -- What the loop does after a failed session. The log line of a retry makes the summary of the
  -- error, and so panics where that does; so does the one of a halt, after the flag is set.
  unfoldable pub after_error :
      Text → TritonShared U → ReconnectBackoff → TritonShared U × ReconnectBackoff × TaskState
  unfolding classify_grpc_stream_error grpc_error_summary wait
  after_error e s b = elim (classify_grpc_stream_error e) [
    | auth_denied ↦ (
      record s { auth_blocked = true },
      b,
      elim (grpc_error_summary e) [ none ↦ panicked | some text ↦ halted ],
    )
    | retryable ↦ elim (grpc_error_summary e) [
      | none ↦ (s, b, panicked)
      | some text ↦ (s, wait b, running)
    ]
  ]

  unfoldable pub after_session :
      TritonShared U × Result Text Bool
      → ReconnectBackoff
      → TritonShared U × ReconnectBackoff × TaskState
  unfolding mark_triton_disconnected after_error reset wait
  after_session (s, ok received) b =
      (mark_triton_disconnected s, wait (if received then reset b else b), running)
  after_session (s, err e) b = after_error e (mark_triton_disconnected s) b

  -- One turn of the loop; a task that does not run any more does nothing.
  unfoldable pub triton_turn :
      TritonScript U
      → TritonShared U × ReconnectBackoff × TaskState
      → TritonShared U × ReconnectBackoff × TaskState
  unfolding run_triton_session after_session mark_triton_disconnected
  triton_turn script (s, b, running) =
      after_session (run_triton_session script (mark_triton_disconnected s)) b
  triton_turn script (s, b, halted) = (s, b, halted)
  triton_turn script (s, b, panicked) = (s, b, panicked)

  unfoldable pub run_triton_loop :
      List (TritonScript U)
      → TritonShared U × ReconnectBackoff × TaskState
      → TritonShared U × ReconnectBackoff × TaskState
  unfolding triton_turn
  run_triton_loop [] state = state
  run_triton_loop (script ∷ scripts) state = run_triton_loop scripts (triton_turn script state)
