-- ===== src/Upstream/Triton/Halt.antt =====
-- The halt of the Triton upstream on denied access.
use feed_mux.Prelude.{
  ◌≡◌, refl, ap, ◌∙◌, arith, List, [], ◌∷◌, Bool, true, false, some, Text, codes, Result, ok, err,
}
use feed_mux.Fanout.{RedisFanout, FeedPayload}
use feed_mux.Config.{Config}
use feed_mux.Reconnect.{
  ReconnectBackoff, auth_denied, classify_grpc_stream_error, grpc_error_summary,
}
use feed_mux.Upstream.Live.{triton_status}
use feed_mux.Upstream.Triton.{
  UpdateRow, TritonScript, TritonShared, TaskState, running, halted, run_triton_session,
  after_session, after_error, triton_turn, run_triton_loop, mark_triton_disconnected,
}

module _ {U : Type 0} (feed_json : FeedPayload UpdateRow → Result Text Text) (fanout : RedisFanout)
    (has_relay : Bool) (grpc_url : Text) where
  abbrev turn :
      TritonScript U
      → TritonShared U × ReconnectBackoff × TaskState
      → TritonShared U × ReconnectBackoff × TaskState
  turn = triton_turn feed_json fanout has_relay grpc_url

  abbrev loop :
      List (TritonScript U)
      → TritonShared U × ReconnectBackoff × TaskState
      → TritonShared U × ReconnectBackoff × TaskState
  loop = run_triton_loop feed_json fanout has_relay grpc_url

  abbrev session : TritonScript U → TritonShared U → TritonShared U × Result Text Bool
  session script s =
      run_triton_session feed_json fanout has_relay grpc_url script
        (mark_triton_disconnected feed_json fanout has_relay grpc_url s)

  loop_halted :
      (scripts : List (TritonScript U)) (s : TritonShared U) (b : ReconnectBackoff)
      → loop scripts (s, b, halted) ≡ (s, b, halted)
  unfolding run_triton_loop triton_turn
  loop_halted [] s b = refl
  loop_halted (script ∷ scripts) s b = loop_halted scripts s b

  abbrev pub denied : TritonShared U → TritonShared U
  denied s = record (mark_triton_disconnected feed_json fanout has_relay grpc_url s) {
    auth_blocked = true;
  }

  after_error-denied :
      (s : TritonShared U) (b : ReconnectBackoff) (e text : Text)
      → classify_grpc_stream_error e ≡ auth_denied
      → grpc_error_summary e ≡ some text
      → after_error feed_json fanout has_relay grpc_url e s b
        ≡ (record s { auth_blocked = true }, b, halted)
  unfolding after_error
  after_error-denied s b e text c t = rw (after_error, c, t) refl

  after_session-denied :
      (p : TritonShared U × Result Text Bool) (b : ReconnectBackoff) (e text : Text)
      → p.1 ≡ err e
      → classify_grpc_stream_error e ≡ auth_denied
      → grpc_error_summary e ≡ some text
      → after_session feed_json fanout has_relay grpc_url p b ≡ (denied p.0, b, halted)
  unfolding after_session
  after_session-denied (s, ok received) b e text h c t = absurd (ground (arith, h))
  after_session-denied (s, err e') b e text h c t =
      let same : e' ≡ e = ground (arith, h) in
      rw same (
        after_error-denied (mark_triton_disconnected feed_json fanout has_relay grpc_url s) b e text
          c t)

  -- A session that fails with an error classified as denied access, whose summary exists, halts the
  -- loop: whatever sessions the network would offer next, none takes place. The flag is set and the
  -- upstream marked as down, and under every configuration the status is an "error/auth-denied"
  -- without a connection.
  pub run_triton_loop-auth_denied :
      (script : TritonScript U) (scripts : List (TritonScript U)) (s : TritonShared U)
      (b : ReconnectBackoff) (e text : Text) (config : Config)
      → (session script s).1 ≡ err e
      → classify_grpc_stream_error e ≡ auth_denied
      → grpc_error_summary e ≡ some text
      → (loop (script ∷ scripts) (s, b, running) ≡ (denied (session script s).0, b, halted))
        × ((triton_status config
              (denied (session script s).0).auth_blocked
              (denied (session script s).0).connected).mode
            ≡ codes "error/auth-denied")
        × ((triton_status config
              (denied (session script s).0).auth_blocked
              (denied (session script s).0).connected).connected
            ≡ false)
  unfolding run_triton_loop triton_turn triton_status mark_triton_disconnected
  run_triton_loop-auth_denied script scripts s b e text config h c t =
      let stopped = denied (session script s).0 in
      let turned : turn script (s, b, running) ≡ (stopped, b, halted) =
        after_session-denied (session script s) b e text h c t in
      (ap (loop scripts) turned ∙ loop_halted scripts stopped b, refl, refl)
