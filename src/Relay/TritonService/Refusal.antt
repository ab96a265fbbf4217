-- ===== src/Relay/TritonService/Refusal.antt =====
-- Between the sessions of the Triton upstream everyone is told that it is down.
use feed_mux.Prelude.{
  ◌≡◌, refl, List, [], ◌∷◌, ◌++◌, Bool, true, false, Option, none, some, Text, codes, Result, ok,
  err,
}
use feed_mux.Fanout.{FeedPayload, set_triton_upstream_up}
use feed_mux.Fanout.Keys
use feed_mux.Fanout.Counters.{Server, exec_all, exec_all-append, count_zeroes}
use feed_mux.Fanout.Tally.{live}
use feed_mux.Reconnect.{
  ReconnectBackoff, GrpcStreamFailure, auth_denied, retryable, classify_grpc_stream_error,
  grpc_error_summary,
}
use feed_mux.Upstream.Triton.{
  TritonLocalEvent, update_event, upstream_connected, UpdateRow, TritonShared, TritonScript,
  TaskState, running, halted, panicked, mark_triton_disconnected, run_triton_session, after_session,
  after_error, triton_turn, run_triton_loop,
}
use feed_mux.Relay.Channel.{Received}
use feed_mux.Relay.TritonService.{Status, unavailable, relay_flag, subscribe}

relay_flag-append :
    {U : Type 0} (flag : Bool) (es fs : List (TritonLocalEvent U))
    → relay_flag flag (es ++ fs) ≡ relay_flag (relay_flag flag es) fs
unfolding relay_flag
relay_flag-append flag [] fs = refl
relay_flag-append flag (update_event u ∷ es) fs = relay_flag-append flag es fs
relay_flag-append flag (upstream_connected up ∷ es) fs = relay_flag-append up es fs

abbrev pub not_connected : Status
not_connected =
    unavailable
      (codes "Triton upstream not connected — check ENABLE_TRITON_GRPC and TRITON_GRPC_URL")

-- The flag is down, Redis holds 0 for the upstream, and a client that subscribes is refused.
pub record IsRefusing {U : Type 0} (server : Server) (start : Server.State server)
    (s : TritonShared U) : Type 0 where
  pub flag_down : s.connected ≡ false
  pub up_zero : server.count Keys.meta_triton_up (exec_all server s.redis start) ≡ some 0
  pub refused :
      (rs : List (Received (TritonLocalEvent U)))
      → subscribe (relay_flag false s.relayed) rs ≡ err not_connected

module _ {U : Type 0} (server : Server) (start : Server.State server) (channel : Text)
    (feed_json : FeedPayload UpdateRow → Result Text Text) (grpc_url : Text) where
  abbrev Refuses : TritonShared U × ReconnectBackoff × TaskState → Type 0
  Refuses (s, b, task) = IsRefusing server start s

  mark_triton_disconnected-IsRefusing :
      (s : TritonShared U)
      → IsRefusing server start (mark_triton_disconnected feed_json (live channel) true grpc_url s)
  unfolding mark_triton_disconnected set_triton_upstream_up subscribe relay_flag
  mark_triton_disconnected-IsRefusing s =
      let down = set_triton_upstream_up (live channel) false in
      record {
        flag_down = refl;
        up_zero =
            rw (exec_all-append server s.redis down start)
              (count_zeroes server Keys.meta_triton_up down (exec_all server s.redis start) refl);
        refused = λ rs. rw (relay_flag-append false s.relayed (upstream_connected false ∷ [])) refl;
      }

  after_error-IsRefusing :
      (e : Text) (s : TritonShared U) (b : ReconnectBackoff) (c : GrpcStreamFailure)
      (t : Option Text)
      → classify_grpc_stream_error e ≡ c
      → grpc_error_summary e ≡ t
      → IsRefusing server start s
      → Refuses (after_error feed_json (live channel) true grpc_url e s b)
  unfolding after_error
  after_error-IsRefusing e s b auth_denied t h k i =
      rw (after_error, h)
        (record { flag_down = i.flag_down; up_zero = i.up_zero; refused = i.refused })
  after_error-IsRefusing e s b retryable none h k i = rw (after_error, h, k) i
  after_error-IsRefusing e s b retryable (some text) h k i = rw (after_error, h, k) i

  after_session-IsRefusing :
      (p : TritonShared U × Result Text Bool) (b : ReconnectBackoff)
      → Refuses (after_session feed_json (live channel) true grpc_url p b)
  unfolding after_session
  after_session-IsRefusing (s, ok received) b = mark_triton_disconnected-IsRefusing s
  after_session-IsRefusing (s, err e) b =
      after_error-IsRefusing e (mark_triton_disconnected feed_json (live channel) true grpc_url s) b
        (classify_grpc_stream_error e) (grpc_error_summary e) refl refl
        (mark_triton_disconnected-IsRefusing s)

  triton_turn-IsRefusing :
      (script : TritonScript U) (s : TritonShared U) (b : ReconnectBackoff) (task : TaskState)
      → IsRefusing server start s
      → Refuses (triton_turn feed_json (live channel) true grpc_url script (s, b, task))
  unfolding triton_turn
  triton_turn-IsRefusing script s b running i =
      after_session-IsRefusing
        (run_triton_session feed_json (live channel) true grpc_url script
          (mark_triton_disconnected feed_json (live channel) true grpc_url s))
        b
  triton_turn-IsRefusing script s b halted i = i
  triton_turn-IsRefusing script s b panicked i = i

  abbrev loop :
      List (TritonScript U)
      → TritonShared U × ReconnectBackoff × TaskState
      → TritonShared U × ReconnectBackoff × TaskState
  loop = run_triton_loop feed_json (live channel) true grpc_url

  loop-IsRefusing :
      (scripts : List (TritonScript U)) (state : TritonShared U × ReconnectBackoff × TaskState)
      → Refuses state
      → Refuses (loop scripts state)
  unfolding run_triton_loop
  loop-IsRefusing [] state i = i
  loop-IsRefusing (script ∷ scripts) (s, b, task) i =
      loop-IsRefusing scripts
        (triton_turn feed_json (live channel) true grpc_url script (s, b, task))
        (triton_turn-IsRefusing script s b task i)

  -- With a live fan-out and a relay, however each session of the Triton loop ends, and also where the
  -- task has halted on denied access or has panicked after it: after the last session the flag is
  -- false, the server counts the upstream as down, and a client that subscribes to the local relay
  -- is refused as unavailable.
  pub run_triton_loop-IsRefusing :
      (script : TritonScript U) (scripts : List (TritonScript U)) (s : TritonShared U)
      (b : ReconnectBackoff)
      → IsRefusing server start (loop (script ∷ scripts) (s, b, running)).0
  unfolding run_triton_loop triton_turn
  run_triton_loop-IsRefusing script scripts s b =
      loop-IsRefusing scripts
        (triton_turn feed_json (live channel) true grpc_url script (s, b, running))
        (after_session-IsRefusing
          (run_triton_session feed_json (live channel) true grpc_url script
            (mark_triton_disconnected feed_json (live channel) true grpc_url s))
          b)
