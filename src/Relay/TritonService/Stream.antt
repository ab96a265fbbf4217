-- ===== src/Relay/TritonService/Stream.antt =====
-- What a client's stream yields of a session of the Triton upstream.
use feed_mux.Prelude.{
  ◌≡◌, refl, sym, ap, ◌∙◌, append_assoc, append-nil, List, [], ◌∷◌, ◌++◌, map, Bool, true, false,
  Option, none, some, Text, codes, Result, ok, err, Option-cases, inl, inr, append_cancel,
  if◌then◌else◌, is_ok,
}
use feed_mux.Fanout.{RedisFanout, FeedPayload}
use feed_mux.Reconnect.{
  ReconnectBackoff, GrpcStreamFailure, auth_denied, retryable, classify_grpc_stream_error,
  grpc_error_summary,
}
use feed_mux.Upstream.Triton.{
  TritonLocalEvent, update_event, upstream_connected, Update, UpdateRow, TritonShared, TritonScript,
  pong_failure, on_update, update_loop, run_triton_session, finish_triton, mark_triton_connected,
  mark_triton_disconnected, normalize_grpc_endpoint, TaskState, running, after_session, after_error,
  triton_turn,
}
use feed_mux.Relay.Channel.{Received, value, lagged, channel_closed, values_in}
use feed_mux.Relay.TritonService.{Status, unavailable, item_of, stream_of}

abbrev pub lost : {U : Type 0} → Result Status U
lost = err (unavailable (codes "Triton upstream disconnected"))

-- What a stream yields for the values alone.
abbrev shown : {U : Type 0} → List (TritonLocalEvent U) → List (Result Status U)
shown [] = []
shown (update_event u ∷ es) = ok u ∷ shown es
shown (upstream_connected true ∷ es) = shown es
shown (upstream_connected false ∷ es) = lost ∷ shown es

stream_of-values_in :
    {U : Type 0} (rs : List (Received (TritonLocalEvent U))) → stream_of rs ≡ shown (values_in rs)
unfolding stream_of item_of
stream_of-values_in [] = refl
stream_of-values_in (value (update_event u) ∷ rs) = ap (λ xs. ok u ∷ xs) (stream_of-values_in rs)
stream_of-values_in (value (upstream_connected true) ∷ rs) = stream_of-values_in rs
stream_of-values_in (value (upstream_connected false) ∷ rs) =
    ap (λ xs. lost ∷ xs) (stream_of-values_in rs)
stream_of-values_in (lagged n ∷ rs) = stream_of-values_in rs
stream_of-values_in (channel_closed ∷ rs) = stream_of-values_in rs

shown_updates :
    {U : Type 0} (us : List U) (es : List (TritonLocalEvent U))
    → shown (map update_event us ++ es) ≡ map ok us ++ shown es
shown_updates [] es = refl
shown_updates (u ∷ us) es = ap (λ xs. ok u ∷ xs) (shown_updates us es)

module _ {U : Type 0} (feed_json : FeedPayload UpdateRow → Result Text Text) (fanout : RedisFanout)
    (grpc_url : Text) where
  -- The bodies of the updates up to the first ping whose answer fails, that one included.
  abbrev pub consumed : List (Update U) → List U
  consumed [] = []
  consumed (u ∷ us) = elim (pong_failure feed_json fanout true grpc_url u) [
    | some e ↦ u.body ∷ []
    | none ↦ u.body ∷ consumed us
  ]

  abbrev loop :
      List (Update U) → Option Text → Bool → TritonShared U → TritonShared U × Result Text Bool
  loop = update_loop feed_json fanout true grpc_url

  update_loop-consumed :
      (us : List (Update U)) (ending : Option Text) (received : Bool) (s : TritonShared U)
      → (loop us ending received s).0.relayed ≡ s.relayed ++ map update_event (consumed us)
  unfolding update_loop on_update
  update_loop-consumed [] none received s = rw append-nil refl
  update_loop-consumed [] (some e) received s = rw append-nil refl
  update_loop-consumed (u ∷ us) ending received s =
      elim (Option-cases (pong_failure feed_json fanout true grpc_url u)) [
        | inl p ↦
            rw (update_loop, consumed, p)
              (update_loop-consumed us ending true (on_update feed_json fanout true grpc_url u s)
                ∙ append_assoc s.relayed (update_event u.body ∷ [])
                    (map update_event (consumed us)))
        | inr (e, p) ↦ rw (update_loop, consumed, p) refl
      ]

  -- The events at the end of a turn: one more where the stream ended without an error.
  abbrev pub closing : Result Text Bool → List (TritonLocalEvent U)
  closing (ok received) = upstream_connected false ∷ upstream_connected false ∷ []
  closing (err e) = upstream_connected false ∷ []

  abbrev relayed_of : TritonShared U × ReconnectBackoff × TaskState → List (TritonLocalEvent U)
  relayed_of (s, b, task) = s.relayed

  after_error_relayed :
      (e : Text) (s : TritonShared U) (b : ReconnectBackoff) (c : GrpcStreamFailure)
      (t : Option Text)
      → classify_grpc_stream_error e ≡ c
      → grpc_error_summary e ≡ t
      → relayed_of (after_error feed_json fanout true grpc_url e s b) ≡ s.relayed
  unfolding after_error
  after_error_relayed e s b auth_denied t h k = rw (after_error, h) refl
  after_error_relayed e s b retryable none h k = rw (after_error, h, k) refl
  after_error_relayed e s b retryable (some text) h k = rw (after_error, h, k) refl

  after_session_relayed :
      (p : TritonShared U × Result Text Bool) (b : ReconnectBackoff)
      → relayed_of (
          after_session feed_json fanout true grpc_url
            (finish_triton feed_json fanout true grpc_url p)
            b)
        ≡ p.0.relayed ++ closing p.1
  unfolding after_session mark_triton_disconnected finish_triton
  after_session_relayed (s, ok received) b =
      append_assoc s.relayed (upstream_connected false ∷ []) (upstream_connected false ∷ [])
  after_session_relayed (s, err e) b =
      after_error_relayed e (mark_triton_disconnected feed_json fanout true grpc_url s) b
        (classify_grpc_stream_error e) (grpc_error_summary e) refl refl

  abbrev turn :
      TritonScript U
      → TritonShared U
      → ReconnectBackoff
      → TritonShared U × ReconnectBackoff × TaskState
  turn script s b = triton_turn feed_json fanout true grpc_url script (s, b, running)

  run_triton_session_connected :
      (script : TritonScript U) (s : TritonShared U) (endpoint : Text)
      → script.allowed ≡ true
      → normalize_grpc_endpoint grpc_url ≡ ok endpoint
      → script.connecting ≡ none
      → run_triton_session feed_json fanout true grpc_url script s
        ≡ finish_triton feed_json fanout true grpc_url (
            loop script.updates script.stream_end false
              (mark_triton_connected feed_json fanout true grpc_url s))
  unfolding run_triton_session
  run_triton_session_connected script s endpoint a n c = rw (run_triton_session, a, n, c) refl

  -- The updates of a session that connects, and how the loop over them ends.
  abbrev pub outcome : TritonScript U → TritonShared U → TritonShared U × Result Text Bool
  outcome script s = loop script.updates script.stream_end false (
      mark_triton_connected feed_json fanout true grpc_url
        (mark_triton_disconnected feed_json fanout true grpc_url s))

  triton_turn_relayed :
      (script : TritonScript U) (s : TritonShared U) (b : ReconnectBackoff) (endpoint : Text)
      → script.allowed ≡ true
      → normalize_grpc_endpoint grpc_url ≡ ok endpoint
      → script.connecting ≡ none
      → relayed_of (turn script s b)
        ≡ (s.relayed ++ (upstream_connected false ∷ upstream_connected true ∷ []))
          ++ (map update_event (consumed script.updates) ++ closing (outcome script s).1)
  unfolding triton_turn mark_triton_disconnected mark_triton_connected
  triton_turn_relayed script s b endpoint a n c =
      let s0 = mark_triton_disconnected feed_json fanout true grpc_url s in
      let s1 = mark_triton_connected feed_json fanout true grpc_url s0 in
      ap (λ p. relayed_of (after_session feed_json fanout true grpc_url p b))
        (run_triton_session_connected script s0 endpoint a n c)
      ∙ after_session_relayed (outcome script s) b
      ∙ ap (λ es. es ++ closing (outcome script s).1)
          (update_loop-consumed script.updates script.stream_end false s1)
      ∙ append_assoc s1.relayed (map update_event (consumed script.updates))
          (closing (outcome script s).1)
      ∙ ap
          (λ es. es ++ (map update_event (consumed script.updates) ++ closing (outcome script s).1))
          (append_assoc s.relayed (upstream_connected false ∷ []) (upstream_connected true ∷ []))

  shown_closing :
      (r : Result Text Bool) → shown (closing r) ≡ lost ∷ (if is_ok r then lost ∷ [] else [])
  shown_closing (ok received) = refl
  shown_closing (err e) = refl

  -- Where a turn of the loop connects, a client that subscribes between the connection and the first
  -- update and misses nothing of the channel gets every update that the session takes from the
  -- upstream, unchanged and in order, and then nothing but the status that the upstream is
  -- disconnected, whether the session ends by itself or by an error: at least once, and once more
  -- where it ends without an error.
  pub stream_of-triton_turn :
      (script : TritonScript U) (s : TritonShared U) (b : ReconnectBackoff) (endpoint : Text)
      (rs : List (Received (TritonLocalEvent U)))
      → script.allowed ≡ true
      → normalize_grpc_endpoint grpc_url ≡ ok endpoint
      → script.connecting ≡ none
      → relayed_of (turn script s b)
        ≡ (s.relayed ++ (upstream_connected false ∷ upstream_connected true ∷ [])) ++ values_in rs
      → (stream_of rs
          ≡ map ok (consumed script.updates)
            ++ (lost ∷ (if is_ok (outcome script s).1 then lost ∷ [] else [])))
  stream_of-triton_turn script s b endpoint rs a n c e =
      let before = s.relayed ++ (upstream_connected false ∷ upstream_connected true ∷ []) in
      let got : values_in rs
          ≡ map update_event (consumed script.updates) ++ closing (outcome script s).1 =
        append_cancel before (values_in rs)
          (map update_event (consumed script.updates) ++ closing (outcome script s).1)
          (sym e ∙ triton_turn_relayed script s b endpoint a n c) in
      stream_of-values_in rs
      ∙ ap shown got
      ∙ shown_updates (consumed script.updates) (closing (outcome script s).1)
      ∙ ap (λ es. map ok (consumed script.updates) ++ es) (shown_closing (outcome script s).1)
