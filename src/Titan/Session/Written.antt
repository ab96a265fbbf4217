-- ===== src/Titan/Session/Written.antt =====
-- The requests that a session writes to Titan's server.
use feed_mux.Prelude.{
  ℕ, ◌≡◌, refl, sym, ap, ◌∙◌, inl, inr, Bool, true, false, List, [], ◌∷◌, ◌++◌, none, some, is_some,
  if◌then◌else◌, Text, Result, ok, err, Bool-cases, Option-cases, append-nil, append_assoc,
}
use feed_mux.Config.{Base58Decode, Pubkey}
use feed_mux.Fanout.{RedisFanout}
use feed_mux.Reconnect.{WsError, WsDisconnectKind}
use feed_mux.Titan.Board.{TitanSizeBoardDoc}
use feed_mux.Titan.Request.{get_info}
use feed_mux.Titan.Message.{TitanHop1Row}
use feed_mux.Titan.Session.{
  Script, Shared, Event, binary_message, ping, close_message, other_message, failure,
  mark_titan_disconnected, mark_connected, start_session, send_get_info, subscribe_hunt_streams,
  with_snapshot, on_binary, read_loop, finish_session, run_session,
}
use feed_mux.Titan.Session.Outgoing.{
  request, size_requests, session_requests, before_failure, send_get_info-Sent,
  send_get_info_refused, subscribe_hunt_streams-written,
}

module _ (decode : Base58Decode) (encode : List ℕ → Text)
    (row_json : TitanHop1Row → Result Text Text) (doc_json : TitanSizeBoardDoc → Result Text Text)
    (fanout : RedisFanout) (has_relay : Bool) (ttl : ℕ) (hunt_sizes : List ℕ)
    (wallet : Pubkey) where
  read_loop-written :
      (es : List Event) (received : Bool) (s : Shared)
      → (read_loop decode encode row_json doc_json fanout has_relay ttl hunt_sizes wallet es
          received s).0.written
        ≡ s.written
  unfolding read_loop on_binary
  read_loop-written [] received s = refl
  read_loop-written (binary_message bytes value ts now end ∷ es) received s =
      read_loop-written es true _
  read_loop-written (ping none ∷ es) received s = read_loop-written es received s
  read_loop-written (ping (some e) ∷ es) received s = refl
  read_loop-written (close_message ∷ es) received s = refl
  read_loop-written (other_message ∷ es) received s = read_loop-written es received s
  read_loop-written (failure e ∷ es) received s = refl

  finish_session-written :
      (script : Script) (p : Shared × Bool × Result WsError WsDisconnectKind)
      → (finish_session decode encode row_json doc_json fanout has_relay ttl hunt_sizes wallet
          script p).0.written
        ≡ p.0.written
  unfolding finish_session mark_titan_disconnected
  finish_session-written script (s, received, err e) = refl
  finish_session-written script (s, received, ok kind) = refl

  after_subscriptions :
      (script : Script) (s : Shared)
      → (finish_session decode encode row_json doc_json fanout has_relay ttl hunt_sizes wallet
          script
          (read_loop decode encode row_json doc_json fanout has_relay ttl hunt_sizes wallet
            script.events false
            (with_snapshot decode encode row_json doc_json fanout has_relay ttl hunt_sizes wallet
              script s))).0.written
        ≡ s.written
  unfolding with_snapshot
  after_subscriptions script s =
      finish_session-written script _ ∙ read_loop-written script.events false _

  -- A session whose GetInfo does not fail.
  past_get_info :
      (script : Script) (s : Shared)
      → (let first =
            send_get_info script (start_session hunt_sizes (mark_connected fanout has_relay s)) in
          script.connecting ≡ none
          → first.1 ≡ none
          → (run_session decode encode row_json doc_json fanout has_relay ttl hunt_sizes wallet
              script s).0.written
            ≡ first.0.written ++ before_failure script (size_requests script wallet 2 hunt_sizes))
  unfolding run_session
  past_get_info script s c on =
      let first =
        send_get_info script (start_session hunt_sizes (mark_connected fanout has_relay s)) in
      let second = subscribe_hunt_streams script wallet 2 hunt_sizes first.0 in
      let w = subscribe_hunt_streams-written script wallet 2 hunt_sizes first.0 in
      elim (Option-cases second.1) [
        | inr (e, v) ↦ rw (run_session, c, on, v) w
        | inl v ↦ rw (run_session, c, on, v) (after_subscriptions script second.0 ∙ w)
      ]

  failed_get_info :
      (script : Script) (s : Shared) (e : WsError)
      → (let first =
            send_get_info script (start_session hunt_sizes (mark_connected fanout has_relay s)) in
          script.connecting ≡ none
          → first.1 ≡ some e
          → (run_session decode encode row_json doc_json fanout has_relay ttl hunt_sizes wallet
              script s).0.written
            ≡ first.0.written)
  unfolding run_session
  failed_get_info script s e c stop = rw (run_session, c, stop) refl

  connected_session-written :
      (script : Script) (s : Shared)
      → script.connecting ≡ none
      → (run_session decode encode row_json doc_json fanout has_relay ttl hunt_sizes wallet script
          s).0.written
        ≡ s.written ++ before_failure script (session_requests script wallet hunt_sizes)
  unfolding start_session mark_connected
  connected_session-written script s c =
      let s0 = start_session hunt_sizes (mark_connected fanout has_relay s) in
      let sizes = before_failure script (size_requests script wallet 2 hunt_sizes) in
      let all = before_failure script (session_requests script wallet hunt_sizes) in
      elim (Bool-cases (script.allow 1)) [
        | inr h ↦
            let (on, w) = send_get_info_refused script s0 h in
            let left_out : sizes ≡ all = rw h refl in
            past_get_info script s c on
            ∙ ap (λ ws. ws ++ sizes) w
            ∙ ap (λ ws. s.written ++ ws) left_out
        | inl h ↦ elim (send_get_info-Sent script s0 h) [
          | inl (out, on, w) ↦
              let one_more : request script 1 get_info ∷ sizes ≡ all = rw (h, out) refl in
              past_get_info script s c on
              ∙ ap (λ ws. ws ++ sizes) w
              ∙ append_assoc s.written (request script 1 get_info ∷ []) sizes
              ∙ ap (λ ws. s.written ++ ws) one_more
          | inr (out, (e, stop), w) ↦
              let no_more : [] ≡ all = rw (h, out) refl in
              failed_get_info script s e c stop
              ∙ w
              ∙ sym (append-nil s.written)
              ∙ ap (λ ws. s.written ++ ws) no_more
        ]
      ]

  -- A session that connects writes GetInfo under the id 1 and then a request for the quotes of SOL in
  -- USDC for each hunt size under the id of its place, counted from 2, with the wallet as the user;
  -- it leaves out those that the rate limiter refuses, and stops before the first that cannot be encoded
  -- or sent. A session that does not connect writes nothing.
  pub run_session-written :
      (script : Script) (s : Shared)
      → (run_session decode encode row_json doc_json fanout has_relay ttl hunt_sizes wallet script
          s).0.written
        ≡ s.written
          ++ (if is_some script.connecting
              then []
              else before_failure script (session_requests script wallet hunt_sizes))
  unfolding run_session
  run_session-written script s =
      let all = before_failure script (session_requests script wallet hunt_sizes) in
      elim (Option-cases script.connecting) [
        | inr (e, c) ↦ rw (run_session, c) (sym (append-nil s.written))
        | inl c ↦
            let kept : all ≡ (if is_some script.connecting then [] else all) = rw c refl in
            connected_session-written script s c ∙ ap (λ ws. s.written ++ ws) kept
      ]
