-- ===== src/Upstream/Triton/Alive.antt =====
-- The Triton task goes on as long as no error is one of denied access.
use feed_mux.Prelude.{
  ◌≤◌, ◌≡◌, refl, subst, arith, List, [], ◌∷◌, Bool, true, false, ℕ, some, Text, Result, ok, err,
  All,
}
use feed_mux.Fanout.{RedisFanout, FeedPayload}
use feed_mux.Reconnect.{
  ReconnectBackoff, reset, wait, next_delay, nanos_per_ms, retryable, classify_grpc_stream_error,
  grpc_error_summary,
}
use feed_mux.Reconnect.Backoff.{IsValid, wait-IsValid, reset-IsValid}
use feed_mux.Upstream.Triton.{
  UpdateRow, TritonScript, TritonShared, TaskState, running, halted, panicked, run_triton_session,
  after_session, after_error, triton_turn, run_triton_loop, mark_triton_disconnected,
}

module _ {U : Type 0} (feed_json : FeedPayload UpdateRow → Result Text Text) (fanout : RedisFanout)
    (has_relay : Bool) (grpc_url : Text) where
  -- A session whose error, if it has one, is worth another try and has a summary for the log.
  abbrev pub IsTolerable : TritonScript U → Type 0
  IsTolerable script =
      (s : TritonShared U) (e : Text)
      → (run_triton_session feed_json fanout has_relay grpc_url script s).1 ≡ err e
      → (classify_grpc_stream_error e ≡ retryable)
        × ((text : Text) × (grpc_error_summary e ≡ some text))

  -- The task runs, and will sleep for at least a millisecond and at most the cap.
  pub record IsAlive (cap : ℕ) (state : TritonShared U × ReconnectBackoff × TaskState)
      : Type 0 where
    pub runs : state.2 ≡ running
    pub valid : IsValid state.1
    pub same_cap : state.1.cap_delay ≡ cap

  after_session-IsAlive :
      (p : TritonShared U × Result Text Bool) (b : ReconnectBackoff)
      → IsValid b
      → ((e : Text)
          → p.1 ≡ err e
          → (classify_grpc_stream_error e ≡ retryable)
            × ((text : Text) × (grpc_error_summary e ≡ some text)))
      → IsAlive b.cap_delay (after_session feed_json fanout has_relay grpc_url p b)
  unfolding after_session wait reset
  after_session-IsAlive (s, ok true) b v h = record {
    runs = refl;
    valid = wait-IsValid (reset b) (reset-IsValid b v);
    same_cap = refl;
  }
  after_session-IsAlive (s, ok false) b v h = record {
    runs = refl;
    valid = wait-IsValid b v;
    same_cap = refl;
  }
  after_session-IsAlive (s, err e) b v h =
      let (again, (text, t)) = h e refl in
      rw (after_error, again, t) (record { runs = refl; valid = wait-IsValid b v; same_cap = refl })

  loop-IsAlive :
      (scripts : List (TritonScript U)) (cap : ℕ) (s : TritonShared U) (b : ReconnectBackoff)
      (task : TaskState)
      → All IsTolerable scripts
      → IsAlive cap (s, b, task)
      → IsAlive cap (run_triton_loop feed_json fanout has_relay grpc_url scripts (s, b, task))
  unfolding run_triton_loop triton_turn
  loop-IsAlive [] cap s b task h a = a
  loop-IsAlive (script ∷ scripts) cap s b halted h a = absurd (ground (arith, a.runs))
  loop-IsAlive (script ∷ scripts) cap s b panicked h a = absurd (ground (arith, a.runs))
  loop-IsAlive (script ∷ scripts) cap s b running h a =
      let down = mark_triton_disconnected feed_json fanout has_relay grpc_url s in
      let p = run_triton_session feed_json fanout has_relay grpc_url script down in
      let next = after_session feed_json fanout has_relay grpc_url p b in
      let alive : IsAlive cap next =
        subst (λ n. IsAlive n next) a.same_cap (after_session-IsAlive p b a.valid (h.0 down)) in
      loop-IsAlive scripts cap next.0 next.1 next.2 h.1 alive

  -- However many sessions fail, a task that runs is still running after them, and its next delay is no
  -- longer than the cap and no shorter than a millisecond, provided that no session's error is
  -- classified as denied access and each has a summary for the log: the loop always comes to the next
  -- session.
  pub run_triton_loop-IsAlive :
      (scripts : List (TritonScript U)) (s : TritonShared U) (b : ReconnectBackoff)
      → All IsTolerable scripts
      → IsValid b
      → let state = run_triton_loop feed_json fanout has_relay grpc_url scripts (s, b, running) in
        (state.2 ≡ running)
        × (next_delay state.1 ≤ b.cap_delay)
        × (nanos_per_ms ≤ next_delay state.1)
  unfolding next_delay
  run_triton_loop-IsAlive scripts s b h v =
      let a =
        loop-IsAlive scripts b.cap_delay s b running h
          (record { runs = refl; valid = v; same_cap = refl }) in
      (
        a.runs,
        omega (arith, a.valid.to_cap, a.same_cap),
        omega (arith, a.valid.positive, a.valid.from_initial),
      )
