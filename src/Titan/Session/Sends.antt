-- ===== src/Titan/Session/Sends.antt =====
-- What holds of the commands of the fan-out's Titan methods holds of all that the Titan task sends.
use feed_mux.Prelude.{
  ℕ, sym, subst, List, [], ◌∷◌, ◌++◌, Bool, true, false, Option, none, some, Text, codes, Result,
  ok, err, All, All-append, Bool-cases, Option-cases, inl, inr,
}
use feed_mux.Config.{Base58Decode, Pubkey}
use feed_mux.Fanout.{
  Command, RedisFanout, quote_published, rpc_error, unhandled, set_titan_upstream_up,
  publish_titan_hop1, publish_titan_size_board, record_titan_message, record_titan_decode_error,
}
use feed_mux.Fanout.Silence.{Call, titan_up, decode_error, message, hop1, size_board, commands}
use feed_mux.Reconnect.{ReconnectBackoff, WsError, WsDisconnectKind}
use feed_mux.Titan.Value.{Value, map_get, map_contains_key}
use feed_mux.Titan.Registry.{TitanStreamRegistry}
use feed_mux.Titan.Quote.{ParsedHop1Quote, parse_stream_data_hop1}
use feed_mux.Titan.Board.{
  TitanSizeBoard, TitanSizeBoardDoc, put_pin, build_size_board_doc_with_pair,
}
use feed_mux.Titan.Message.{
  TitanHop1Row, row_of, pin_of, publish_hop1_quote, publish_size_board_snapshot,
  handle_titan_server_message,
}
use feed_mux.Titan.Session.Requests.{send_get_info_redis, subscribe_hunt_streams_redis}
use feed_mux.Titan.Session.{
  Shared, Script, Event, binary_message, ping, close_message, other_message, failure,
  mark_titan_disconnected, mark_connected, subscribe_hunt_streams, start_session, send_get_info,
  on_binary, read_loop, finish_session, with_snapshot, run_session, live_turn, run_live_loop,
}

abbrev pub IsTitanCall : Call → Type 0
IsTitanCall (titan_up up) = Unit
IsTitanCall decode_error = Unit
IsTitanCall (message outcome now) = Unit
IsTitanCall (hop1 json pair size ttl) = Unit
IsTitanCall (size_board json) = Unit
IsTitanCall _ = ⊥

module _ (f : RedisFanout) (P : Command → Type 0)
    (each : (c : Call) → IsTitanCall c → All P (commands f c)) (has_relay : Bool) where
  abbrev Kept : Shared → Type 0
  Kept s = All P s.redis

  mark_titan_disconnected-Kept :
      (s : Shared) → Kept s → Kept (mark_titan_disconnected f has_relay s)
  unfolding mark_titan_disconnected set_titan_upstream_up
  mark_titan_disconnected-Kept s h =
      All-append P s.redis (set_titan_upstream_up f false) h (each (titan_up false) tt)

  mark_connected-Kept : (s : Shared) → Kept s → Kept (mark_connected f has_relay s)
  unfolding mark_connected set_titan_upstream_up
  mark_connected-Kept s h =
      All-append P s.redis (set_titan_upstream_up f true) h (each (titan_up true) tt)

  module _ (decode : Base58Decode) (encode : List ℕ → Text)
      (row_json : TitanHop1Row → Result Text Text) (doc_json : TitanSizeBoardDoc → Result Text Text)
      (ttl : ℕ) where
    snapshot_all :
        (ts now end : ℕ) (board : TitanSizeBoard) (pair base mid : Text)
        → All P (
            publish_size_board_snapshot decode encode row_json doc_json f ttl ts now end board pair
              base mid)
    unfolding publish_size_board_snapshot publish_titan_size_board
    snapshot_all ts now end board pair base mid =
        each (size_board (doc_json (build_size_board_doc_with_pair board now pair base mid))) tt

    publish_hop1_quote_all :
        (ts now end : ℕ) (board : TitanSizeBoard) (quote : ParsedHop1Quote)
        → All P (publish_hop1_quote decode encode row_json doc_json f ttl ts now end board quote).1
    unfolding publish_hop1_quote publish_titan_hop1 record_titan_message
    publish_hop1_quote_all ts now end board quote =
        let board' = put_pin board (pin_of quote ts) in
        let row =
          publish_titan_hop1 f row_json (row_of quote ts) quote.pair quote.size_lamports ttl in
        let snapshot =
          publish_size_board_snapshot decode encode row_json doc_json f ttl ts now end board'
            quote.pair quote.base quote.mid in
        All-append P (row ++ snapshot) (record_titan_message f quote_published end)
          (All-append P row snapshot
            (each (hop1 (row_json (row_of quote ts)) quote.pair quote.size_lamports ttl) tt)
            (snapshot_all ts now end board' quote.pair quote.base quote.mid))
          (each (message quote_published end) tt)

    handled_all :
        (v : Option Value) (ts now end : ℕ) (registry : TitanStreamRegistry)
        (board : TitanSizeBoard)
        → All P
            (handle_titan_server_message decode encode row_json doc_json f ttl ts now end v registry
              board).sent
    unfolding handle_titan_server_message record_titan_decode_error record_titan_message
    handled_all none ts now end registry board = each decode_error tt
    handled_all (some v) ts now end registry board =
        elim (Bool-cases (map_contains_key v (codes "StreamData"))) [
          | inl p ↦
              elim (Option-cases
                (parse_stream_data_hop1 decode encode (map_get v (codes "StreamData")) registry)) [
                  | inl q ↦ rw (handle_titan_server_message, p, q) (each (message unhandled end) tt)
                  | inr (quote, q) ↦
                      rw (handle_titan_server_message, p, q)
                        (publish_hop1_quote_all ts now end board quote)
                ]
          | inr p ↦ elim (Bool-cases (map_contains_key v (codes "Response"))) [
            | inl q ↦ rw (handle_titan_server_message, p, q) tt
            | inr q ↦ elim (Bool-cases (map_contains_key v (codes "Error"))) [
              | inl r ↦ rw (handle_titan_server_message, p, q, r) (each (message rpc_error end) tt)
              | inr r ↦ rw (handle_titan_server_message, p, q, r) (each (message unhandled end) tt)
            ]
          ]
        ]

    module _ (hunt_sizes : List ℕ) (wallet : Pubkey) where
      read_loop-Kept :
          (es : List Event) (received : Bool) (s : Shared)
          → Kept s
          → Kept
              (read_loop decode encode row_json doc_json f has_relay ttl hunt_sizes wallet es
                received s).0
      unfolding read_loop on_binary
      read_loop-Kept [] received s h = h
      read_loop-Kept (binary_message bytes value ts now end ∷ es) received s h =
          read_loop-Kept es true
            (on_binary decode encode row_json doc_json f has_relay ttl hunt_sizes wallet bytes value
              ts now end s)
            (All-append P s.redis
              (handle_titan_server_message decode encode row_json doc_json f ttl ts now end value
                s.registry s.board).sent
              h (handled_all value ts now end s.registry s.board))
      read_loop-Kept (ping none ∷ es) received s h = read_loop-Kept es received s h
      read_loop-Kept (ping (some e) ∷ es) received s h = h
      read_loop-Kept (close_message ∷ es) received s h = h
      read_loop-Kept (other_message ∷ es) received s h = read_loop-Kept es received s h
      read_loop-Kept (failure e ∷ es) received s h = h

      finish_session-Kept :
          (script : Script) (p : Shared × Bool × Result WsError WsDisconnectKind)
          → Kept p.0
          → Kept
              (finish_session decode encode row_json doc_json f has_relay ttl hunt_sizes wallet
                script p).0
      unfolding finish_session
      finish_session-Kept script (s, received, err e) h = mark_titan_disconnected-Kept s h
      finish_session-Kept script (s, received, ok kind) h = mark_titan_disconnected-Kept s h

      with_snapshot-Kept :
          (script : Script) (s : Shared)
          → Kept s
          → Kept (
              with_snapshot decode encode row_json doc_json f has_relay ttl hunt_sizes wallet script
                s)
      unfolding with_snapshot
      with_snapshot-Kept script s h = All-append P s.redis _ h (
          snapshot_all 0 script.snapshot_at 0 s.board (codes "SOL-USDC") (codes "SOL")
            (codes "USDC"))

      run_session-Kept :
          (script : Script) (s : Shared)
          → Kept s
          → Kept
              (run_session decode encode row_json doc_json f has_relay ttl hunt_sizes wallet script
                s).0
      unfolding run_session start_session
      run_session-Kept script s h =
          let s0 = start_session hunt_sizes (mark_connected f has_relay s) in
          let up : Kept s0 = mark_connected-Kept s h in
          let first = send_get_info script s0 in
          let kept1 : Kept first.0 = subst (All P) (sym (send_get_info_redis script s0)) up in
          let second = subscribe_hunt_streams script wallet 2 hunt_sizes first.0 in
          let kept2 : Kept second.0 =
            subst (All P) (sym (subscribe_hunt_streams_redis script wallet 2 hunt_sizes first.0))
              kept1 in
          let s3 =
            with_snapshot decode encode row_json doc_json f has_relay ttl hunt_sizes wallet script
              second.0 in
          elim (Option-cases script.connecting) [
            | inr (e, c) ↦ rw (run_session, c) h
            | inl c ↦ elim (Option-cases first.1) [
              | inr (e, a) ↦ rw (run_session, c, a) kept1
              | inl a ↦ elim (Option-cases second.1) [
                | inr (e, b) ↦ rw (run_session, c, a, b) kept2
                | inl b ↦
                    rw (run_session, c, a, b)
                      (finish_session-Kept script
                        (read_loop decode encode row_json doc_json f has_relay ttl hunt_sizes wallet
                          script.events false s3)
                        (read_loop-Kept script.events false s3
                          (with_snapshot-Kept script second.0 kept2)))
              ]
            ]
          ]

      -- A predicate that holds of every command of the Titan methods of the fan-out, and of the commands
      -- sent before, holds of every command after any sessions.
      pub run_live_loop-Kept :
          (scripts : List Script) (state : Shared × ReconnectBackoff)
          → Kept state.0
          → Kept
              (run_live_loop decode encode row_json doc_json f has_relay ttl hunt_sizes wallet
                scripts state).0
      unfolding run_live_loop live_turn
      run_live_loop-Kept [] state h = h
      run_live_loop-Kept (script ∷ scripts) (s, b) h =
          let down = mark_titan_disconnected f has_relay s in
          run_live_loop-Kept scripts
            (live_turn decode encode row_json doc_json f has_relay ttl hunt_sizes wallet script
              (s, b))
            (mark_titan_disconnected-Kept
              (run_session decode encode row_json doc_json f has_relay ttl hunt_sizes wallet script
                down).0
              (run_session-Kept script down (mark_titan_disconnected-Kept s h)))
