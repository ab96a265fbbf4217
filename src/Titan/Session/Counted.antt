-- ===== src/Titan/Session/Counted.antt =====
-- The Titan counters in Redis against the messages of the sessions.
use feed_mux.Prelude.{
  ℕ, ◌+◌, ◌≡◌, ap, ◌∙◌, arith, List, [], ◌∷◌, Bool, true, false, Option, none, some, Text, Result,
  ok, err, Option-cases, inl, inr,
}
use feed_mux.Config.{Base58Decode, Pubkey}
use feed_mux.Fanout.{publish_titan_size_board}
use feed_mux.Fanout.Silence.{titan_up, size_board, commands}
use feed_mux.Fanout.Counters.{gains}
use feed_mux.Fanout.Tally.{live, gains-append, total, total-append}
use feed_mux.Reconnect.{ReconnectBackoff, WsError, WsDisconnectKind}
use feed_mux.Titan.Value.{Value}
use feed_mux.Titan.Registry.{TitanStreamRegistry}
use feed_mux.Titan.Board.{TitanSizeBoard, TitanSizeBoardDoc}
use feed_mux.Titan.Message.{
  TitanHop1Row, TitanMessageKind, publish_size_board_snapshot, handle_titan_server_message,
}
use feed_mux.Titan.Session.{
  Shared, Script, Event, binary_message, ping, close_message, other_message, failure,
  mark_titan_disconnected, mark_connected, start_session, send_get_info, subscribe_hunt_streams,
  on_binary, read_loop, finish_session, with_snapshot, run_session, live_turn, run_live_loop,
}
use feed_mux.Titan.Session.Pins.{handled-Effect}
use feed_mux.Titan.Session.Requests.{send_get_info_redis, subscribe_hunt_streams_redis}
use feed_mux.Titan.Session.History.{kind_of, kinds, handled-kind_of, session_kinds, history}

module _ (decode : Base58Decode) (encode : List ℕ → Text)
    (row_json : TitanHop1Row → Result Text Text) (doc_json : TitanSizeBoardDoc → Result Text Text)
    (channel : Text) (has_relay : Bool) (ttl : ℕ) (k : Text) (by : TitanMessageKind → ℕ) where
  -- What a key gains from each of the fan-out's methods that the sessions call.
  pub record Adds : Type 0 where
    pub for_up : (up : Bool) → gains k (commands (live channel) (titan_up up)) ≡ some 0
    pub for_board :
        (json : Result Text Text) → gains k (commands (live channel) (size_board json)) ≡ some 0
    pub for_message :
        (v : Option Value) (ts now end : ℕ) (registry : TitanStreamRegistry)
        (board : TitanSizeBoard)
        → (let r =
              handle_titan_server_message decode encode row_json doc_json
                (live channel)
                ttl
                ts
                now
                end
                v
                registry
                board in
            gains k r.sent ≡ some (by r.kind))

  module _ (a : Adds) where
    -- The commands so far add `n` to the key.
    abbrev Has : Shared → ℕ → Type 0
    Has s n = gains k s.redis ≡ some n

    mark_titan_disconnected-Has :
        (s : Shared) (n : ℕ) → Has s n → Has (mark_titan_disconnected (live channel) has_relay s) n
    unfolding mark_titan_disconnected
    mark_titan_disconnected-Has s n h =
        gains-append k s.redis (commands (live channel) (titan_up false)) n 0 h (a.for_up false)
        ∙ ap some (omega arith)

    mark_connected-Has :
        (s : Shared) (n : ℕ) → Has s n → Has (mark_connected (live channel) has_relay s) n
    unfolding mark_connected
    mark_connected-Has s n h =
        gains-append k s.redis (commands (live channel) (titan_up true)) n 0 h (a.for_up true)
        ∙ ap some (omega arith)

    module _ (hunt_sizes : List ℕ) (wallet : Pubkey) where
      with_snapshot-Has :
          (script : Script) (s : Shared) (n : ℕ)
          → Has s n
          → Has
              (with_snapshot decode encode row_json doc_json
                (live channel)
                has_relay
                ttl
                hunt_sizes
                wallet
                script
                s)
              n
      unfolding with_snapshot publish_size_board_snapshot publish_titan_size_board
      with_snapshot-Has script s n h =
          gains-append k s.redis _ n 0 h (a.for_board (doc_json _)) ∙ ap some (omega arith)

      read_loop-Has :
          (es : List Event) (received : Bool) (s : Shared) (n : ℕ)
          → Has s n
          → Has
              (read_loop decode encode row_json doc_json
                (live channel)
                has_relay
                ttl
                hunt_sizes
                wallet
                es
                received
                s).0
              (n + total by (kinds decode encode es s.registry))
      unfolding read_loop on_binary
      read_loop-Has [] received s n h = h ∙ ap some (omega arith)
      read_loop-Has (binary_message bytes value ts now end ∷ es) received s n h =
          let r =
            handle_titan_server_message decode encode row_json doc_json (live channel) ttl ts now
              end value s.registry s.board in
          let s' =
            on_binary decode encode row_json doc_json (live channel) has_relay ttl hunt_sizes wallet
              bytes value ts now end s in
          let kind =
            handled-kind_of decode encode row_json doc_json (live channel) ttl value ts now end
              s.registry s.board in
          let known =
            (handled-Effect decode encode row_json doc_json (live channel) ttl value ts now end 0
              s.registry s.board).1 in
          let one = by (kind_of decode encode value s.registry) in
          let step : Has s' (n + one) =
            gains-append k s.redis r.sent n one h
              (a.for_message value ts now end s.registry s.board ∙ ap (λ x. some (by x)) kind) in
          read_loop-Has es true s' (n + one) step
          ∙ ap (λ g. some (n + one + total by (kinds decode encode es g))) known
          ∙ ap some (omega arith)
      read_loop-Has (ping none ∷ es) received s n h = read_loop-Has es received s n h
      read_loop-Has (ping (some e) ∷ es) received s n h = h ∙ ap some (omega arith)
      read_loop-Has (close_message ∷ es) received s n h = h ∙ ap some (omega arith)
      read_loop-Has (other_message ∷ es) received s n h = read_loop-Has es received s n h
      read_loop-Has (failure e ∷ es) received s n h = h ∙ ap some (omega arith)

      finish_session-Has :
          (script : Script) (p : Shared × Bool × Result WsError WsDisconnectKind) (n : ℕ)
          → Has p.0 n
          → Has
              (finish_session decode encode row_json doc_json
                (live channel)
                has_relay
                ttl
                hunt_sizes
                wallet
                script
                p).0
              n
      unfolding finish_session
      finish_session-Has script (s, received, err e) n h = mark_titan_disconnected-Has s n h
      finish_session-Has script (s, received, ok kind) n h = mark_titan_disconnected-Has s n h

      abbrev kinds_of : Script → Shared → List TitanMessageKind
      kinds_of =
          session_kinds decode encode row_json doc_json (live channel) ttl has_relay hunt_sizes
            wallet

      run_session-Has :
          (script : Script) (s : Shared) (n : ℕ)
          → Has s n
          → Has
              (run_session decode encode row_json doc_json
                (live channel)
                has_relay
                ttl
                hunt_sizes
                wallet
                script
                s).0
              (n + total by (kinds_of script s))
      unfolding run_session session_kinds start_session
      run_session-Has script s n h =
          let s0 = start_session hunt_sizes (mark_connected (live channel) has_relay s) in
          let first = send_get_info script s0 in
          let second = subscribe_hunt_streams script wallet 2 hunt_sizes first.0 in
          let has1 : Has first.0 n =
            ap (gains k) (send_get_info_redis script s0) ∙ mark_connected-Has s n h in
          let has2 : Has second.0 n =
            ap (gains k) (subscribe_hunt_streams_redis script wallet 2 hunt_sizes first.0) ∙ has1 in
          let s3 =
            with_snapshot decode encode row_json doc_json (live channel) has_relay ttl hunt_sizes
              wallet script second.0 in
          elim (Option-cases script.connecting) [
            | inr (e, c) ↦ rw (run_session, session_kinds, c) (h ∙ ap some (omega arith))
            | inl c ↦ elim (Option-cases first.1) [
              | inr (e, u) ↦ rw (run_session, session_kinds, c, u) (has1 ∙ ap some (omega arith))
              | inl u ↦ elim (Option-cases second.1) [
                | inr (e, v) ↦
                    rw (run_session, session_kinds, c, u, v) (has2 ∙ ap some (omega arith))
                | inl v ↦
                    rw (run_session, session_kinds, c, u, v)
                      (finish_session-Has script
                        (read_loop decode encode row_json doc_json (live channel) has_relay ttl
                          hunt_sizes wallet script.events false s3)
                        (n + total by (kinds decode encode script.events second.0.registry))
                        (read_loop-Has script.events false s3 n
                          (with_snapshot-Has script second.0 n has2)))
              ]
            ]
          ]

      pub run_live_loop-Has :
          (scripts : List Script) (s : Shared) (b : ReconnectBackoff) (n : ℕ)
          → Has s n
          → Has
              (run_live_loop decode encode row_json doc_json
                (live channel)
                has_relay
                ttl
                hunt_sizes
                wallet
                scripts
                (s, b)).0
              (n
                + total by (
                    history decode encode row_json doc_json
                      (live channel)
                      ttl
                      has_relay
                      hunt_sizes
                      wallet
                      scripts
                      (s, b)))
      unfolding run_live_loop live_turn
      run_live_loop-Has [] s b n h = h ∙ ap some (omega arith)
      run_live_loop-Has (script ∷ scripts) s b n h =
          let down = mark_titan_disconnected (live channel) has_relay s in
          let done =
            run_session decode encode row_json doc_json (live channel) has_relay ttl hunt_sizes
              wallet script down in
          let next =
            live_turn decode encode row_json doc_json (live channel) has_relay ttl hunt_sizes wallet
              script (s, b) in
          let here = total by (kinds_of script down) in
          let later =
            history decode encode row_json doc_json (live channel) ttl has_relay hunt_sizes wallet
              scripts next in
          run_live_loop-Has scripts next.0 next.1 (n + here) (
            mark_titan_disconnected-Has done.0 (n + here)
              (run_session-Has script down n (mark_titan_disconnected-Has s n h)))
          ∙ ap some (omega (arith, total-append by (kinds_of script down) later))
