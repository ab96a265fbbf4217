-- ===== src/Upstream/Triton/Sends.antt =====
-- What holds of the commands of the fan-out's Triton methods holds of all that the Triton task sends.
use feed_mux.Prelude.{
  ◌≡◌, refl, List, [], ◌∷◌, Bool, true, false, Option, none, some, Text, codes, Result, ok, err,
  All, All-append, Bool-cases, Option-cases, Result-cases, inl, inr,
}
use feed_mux.Fanout.{
  Command, RedisFanout, FeedPayload, publish, record_triton_frame, set_triton_upstream_up,
}
use feed_mux.Fanout.Silence.{Call, triton_up, triton_frame, event, commands}
use feed_mux.Reconnect.{
  ReconnectBackoff, GrpcStreamFailure, auth_denied, retryable, classify_grpc_stream_error,
  grpc_error_summary,
}
use feed_mux.Upstream.Triton.{
  Update, UpdateRow, TritonShared, TritonScript, TaskState, running, halted, panicked,
  mark_triton_disconnected, mark_triton_connected, is_slot, handle_triton_update, on_update,
  pong_failure, update_loop, finish_triton, normalize_grpc_endpoint, run_triton_session,
  after_session, after_error, triton_turn, run_triton_loop,
}

abbrev pub IsTritonCall : Call → Type 0
IsTritonCall (triton_up up) = Unit
IsTritonCall (triton_frame now) = Unit
IsTritonCall (event json reply) = Unit
IsTritonCall _ = ⊥

module _ (f : RedisFanout) (P : Command → Type 0)
    (each : (c : Call) → IsTritonCall c → All P (commands f c)) {U : Type 0}
    (feed_json : FeedPayload UpdateRow → Result Text Text) (has_relay : Bool)
    (grpc_url : Text) where
  abbrev Kept : TritonShared U → Type 0
  Kept s = All P s.redis

  abbrev KeptTurn : TritonShared U × ReconnectBackoff × TaskState → Type 0
  KeptTurn (s, b, task) = Kept s

  mark_triton_disconnected-Kept :
      (s : TritonShared U)
      → Kept s
      → Kept (mark_triton_disconnected feed_json f has_relay grpc_url s)
  unfolding mark_triton_disconnected set_triton_upstream_up
  mark_triton_disconnected-Kept s h =
      All-append P s.redis (set_triton_upstream_up f false) h (each (triton_up false) tt)

  mark_triton_connected-Kept :
      (s : TritonShared U) → Kept s → Kept (mark_triton_connected feed_json f has_relay grpc_url s)
  unfolding mark_triton_connected set_triton_upstream_up
  mark_triton_connected-Kept s h =
      All-append P s.redis (set_triton_upstream_up f true) h (each (triton_up true) tt)

  handle_triton_update_all :
      (u : Update U) → All P (handle_triton_update feed_json f has_relay grpc_url u)
  unfolding handle_triton_update record_triton_frame publish
  handle_triton_update_all u =
      let payload : FeedPayload UpdateRow = record {
        event = codes "triton.slot";
        source = codes "triton_grpc";
        ts = u.now_text;
        data_json = some (record { kind = codes "SubscribeUpdate"; has_slot = is_slot u.kind });
      } in
      All-append P (record_triton_frame f u.now) (publish f feed_json payload u.reply).0
        (each (triton_frame u.now) tt) (each (event (feed_json payload) u.reply) tt)

  on_update-Kept :
      (u : Update U) (s : TritonShared U)
      → Kept s
      → Kept (on_update feed_json f has_relay grpc_url u s)
  unfolding on_update
  on_update-Kept u s h =
      All-append P s.redis (handle_triton_update feed_json f has_relay grpc_url u) h
        (handle_triton_update_all u)

  update_loop-Kept :
      (us : List (Update U)) (ending : Option Text) (received : Bool) (s : TritonShared U)
      → Kept s
      → Kept (update_loop feed_json f has_relay grpc_url us ending received s).0
  unfolding update_loop
  update_loop-Kept [] none received s h = h
  update_loop-Kept [] (some e) received s h = h
  update_loop-Kept (u ∷ us) ending received s h =
      elim (Option-cases (pong_failure feed_json f has_relay grpc_url u)) [
        | inr (e, p) ↦ rw (update_loop, p) (on_update-Kept u s h)
        | inl p ↦
            rw (update_loop, p)
              (update_loop-Kept us ending true (on_update feed_json f has_relay grpc_url u s)
                (on_update-Kept u s h))
      ]

  finish_triton-Kept :
      (p : TritonShared U × Result Text Bool)
      → Kept p.0
      → Kept (finish_triton feed_json f has_relay grpc_url p).0
  unfolding finish_triton
  finish_triton-Kept (s, ok received) h = mark_triton_disconnected-Kept s h
  finish_triton-Kept (s, err e) h = h

  run_triton_session-Kept :
      (script : TritonScript U) (s : TritonShared U)
      → Kept s
      → Kept (run_triton_session feed_json f has_relay grpc_url script s).0
  unfolding run_triton_session
  run_triton_session-Kept script s h = elim (Bool-cases script.allowed) [
    | inr a ↦ rw (run_triton_session, a) h
    | inl a ↦ elim (Result-cases (normalize_grpc_endpoint grpc_url)) [
      | inr (e, n) ↦ rw (run_triton_session, a, n) h
      | inl (endpoint, n) ↦ elim (Option-cases script.connecting) [
        | inr (e, c) ↦ rw (run_triton_session, a, n, c) h
        | inl c ↦
            rw (run_triton_session, a, n, c)
              (finish_triton-Kept _ (
                update_loop-Kept script.updates script.stream_end false
                  (mark_triton_connected feed_json f has_relay grpc_url s)
                  (mark_triton_connected-Kept s h)))
      ]
    ]
  ]

  after_error-Kept :
      (e : Text) (s : TritonShared U) (b : ReconnectBackoff) (c : GrpcStreamFailure)
      (t : Option Text)
      → classify_grpc_stream_error e ≡ c
      → grpc_error_summary e ≡ t
      → Kept s
      → KeptTurn (after_error feed_json f has_relay grpc_url e s b)
  unfolding after_error
  after_error-Kept e s b auth_denied t h k i = rw (after_error, h) i
  after_error-Kept e s b retryable none h k i = rw (after_error, h, k) i
  after_error-Kept e s b retryable (some text) h k i = rw (after_error, h, k) i

  after_session-Kept :
      (p : TritonShared U × Result Text Bool) (b : ReconnectBackoff)
      → Kept p.0
      → KeptTurn (after_session feed_json f has_relay grpc_url p b)
  unfolding after_session
  after_session-Kept (s, ok received) b h = mark_triton_disconnected-Kept s h
  after_session-Kept (s, err e) b h =
      after_error-Kept e (mark_triton_disconnected feed_json f has_relay grpc_url s) b
        (classify_grpc_stream_error e) (grpc_error_summary e) refl refl
        (mark_triton_disconnected-Kept s h)

  triton_turn-Kept :
      (script : TritonScript U) (s : TritonShared U) (b : ReconnectBackoff) (task : TaskState)
      → Kept s
      → KeptTurn (triton_turn feed_json f has_relay grpc_url script (s, b, task))
  unfolding triton_turn
  triton_turn-Kept script s b running h =
      let down = mark_triton_disconnected feed_json f has_relay grpc_url s in
      after_session-Kept (run_triton_session feed_json f has_relay grpc_url script down) b
        (run_triton_session-Kept script down (mark_triton_disconnected-Kept s h))
  triton_turn-Kept script s b halted h = h
  triton_turn-Kept script s b panicked h = h

  -- A predicate that holds of every command of the Triton methods of the fan-out, and of the commands
  -- sent before, holds of every command after any sessions.
  pub run_triton_loop-Kept :
      (scripts : List (TritonScript U)) (state : TritonShared U × ReconnectBackoff × TaskState)
      → KeptTurn state
      → KeptTurn (run_triton_loop feed_json f has_relay grpc_url scripts state)
  unfolding run_triton_loop
  run_triton_loop-Kept [] state h = h
  run_triton_loop-Kept (script ∷ scripts) (s, b, task) h =
      run_triton_loop-Kept scripts (triton_turn feed_json f has_relay grpc_url script (s, b, task))
        (triton_turn-Kept script s b task h)
