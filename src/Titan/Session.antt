-- ===== src/Titan/Session.antt =====
-- src/upstream/titan.rs: a session with Titan's server and the loop that reconnects. The network is a
-- `Script`, one for each session: whether the connection comes about, which requests the rate
-- limiter allows, which sends fail, and the messages up to the end of the stream.
pub mod Subscribe
pub mod Ends
pub mod Relay
pub mod Pins
pub mod Requests
pub mod Outgoing
pub mod Written
pub mod Sends
pub mod History
pub mod Counted
pub mod Tallied
pub mod Streams
mod Tests
use feed_mux.Prelude.{
  ℕ, zero, suc, ◌+◌, List, [], ◌∷◌, ◌++◌, Bool, true, false, not, Option, none, some, if◌then◌else◌,
  Text, codes, Result, ok, err,
}
use feed_mux.Config.{Base58Decode, Pubkey}
use feed_mux.Fanout.{Command, RedisFanout, set_titan_upstream_up}
use feed_mux.Reconnect.{
  ReconnectBackoff, reset, wait, should_reset_backoff, WsDisconnectKind, clean_close, abrupt_close,
  is_transport_error, WsError, io, IoErrorKind, other_kind, classify_ws_error,
}
use feed_mux.Titan.Value.{Value}
use feed_mux.Titan.Registry.{TitanStreamRegistry, cleared, register_pending_request}
use feed_mux.Titan.Board.{
  TitanSizeBoard, TitanSizeBoardDoc, cleared_board, init_hunt_sizes, mark_unsubscribed,
}
use feed_mux.Titan.Request.{ClientRequest, ClientRequestData, get_info, quote_stream_request}
use feed_mux.Titan.Message.{
  TitanHop1Row, Handled, handle_titan_server_message, publish_size_board_snapshot,
}

pub data TitanLocalEvent : Type 0 where
  upstream_frame : List ℕ → TitanLocalEvent
  upstream_connected : Bool → TitanLocalEvent

pub record SessionOutcome : Type 0 where
  pub kind : WsDisconnectKind
  pub received_data : Bool
  pub connected_for : ℕ

-- What the task shares with the rest of the program or sends: the flag, the events of the local
-- relay, the registry, the board, the commands to Redis and the requests written.
pub record Shared : Type 0 where
  pub connected : Bool
  pub relayed : List TitanLocalEvent
  pub registry : TitanStreamRegistry
  pub board : TitanSizeBoard
  pub redis : List Command
  pub written : List ClientRequest

-- What `read.next()` yields. A binary message comes with its decoding and the times of its handler,
-- a ping with the result of the pong.
pub data Event : Type 0 where
  binary_message : List ℕ → Option Value → ℕ → ℕ → ℕ → Event
  ping : Option WsError → Event
  close_message : Event
  other_message : Event
  failure : WsError → Event

-- The request with id `n` is allowed if `allow n`; `encoding` is the error of encoding a request, and
-- `send n` that of sending the one with id `n`.
pub record Script : Type 0 where
  pub connecting : Option WsError
  pub allow : ℕ → Bool
  pub encoding : ClientRequest → Option Text
  pub send : ℕ → Option WsError
  pub events : List Event
  pub connected_for : ℕ
  pub snapshot_at : ℕ

module _ (fanout : RedisFanout) (has_relay : Bool) where
  abbrev relay_event : TitanLocalEvent → Shared → Shared
  relay_event e s = record s { relayed = if has_relay then s.relayed ++ (e ∷ []) else s.relayed }

  abbrev set_up : Bool → Shared → Shared
  set_up up s =
      relay_event (upstream_connected up)
        (record s { connected = up; redis = s.redis ++ set_titan_upstream_up fanout up })

  unfoldable pub mark_titan_disconnected : Shared → Shared
  unfolding set_titan_upstream_up
  mark_titan_disconnected s = set_up false s

  unfoldable pub mark_connected : Shared → Shared
  unfolding set_titan_upstream_up
  mark_connected s = set_up true s

unfoldable pub session_encode_error : Text → WsError
session_encode_error e = io other_kind e

-- Encoding and sending one request.
unfoldable pub send_request : Script → ℕ → ClientRequestData → Shared → Shared × Option WsError
unfolding session_encode_error
send_request script id request s =
    let message : ClientRequest = record { id = id; body = request } in
    elim (script.encoding message) [
      | some e ↦ (s, some (session_encode_error e))
      | none ↦ elim (script.send id) [
        | some e ↦ (s, some e)
        | none ↦ (record s { written = s.written ++ (message ∷ []) }, none)
      ]
    ]

-- One turn of the loop over the hunt sizes.
unfoldable pub subscribe_size : Script → Pubkey → ℕ → ℕ → Shared → Shared × Option WsError
unfolding mark_unsubscribed register_pending_request send_request quote_stream_request
subscribe_size script wallet id amount s =
    if not (script.allow id)
    then (record s { board = mark_unsubscribed s.board amount }, none)
    else send_request script id (quote_stream_request wallet amount)
        (record s { registry = register_pending_request s.registry id amount })

-- The loop from the request with id `id` on.
unfoldable pub subscribe_hunt_streams :
    Script → Pubkey → ℕ → List ℕ → Shared → Shared × Option WsError
unfolding subscribe_size
subscribe_hunt_streams script wallet id [] s = (s, none)
subscribe_hunt_streams script wallet id (amount ∷ amounts) s =
    let (s', stop) = subscribe_size script wallet id amount s in
    elim stop [
      | some e ↦ (s', some e)
      | none ↦ subscribe_hunt_streams script wallet (suc id) amounts s'
    ]

-- The start of a session, where the connection is up.
unfoldable pub start_session : List ℕ → Shared → Shared
unfolding init_hunt_sizes
start_session hunt_sizes s = record s {
  registry = cleared;
  board = init_hunt_sizes cleared_board hunt_sizes;
}

unfoldable pub send_get_info : Script → Shared → Shared × Option WsError
unfolding send_request
send_get_info script s =
    if not (script.allow 1) then (s, none) else send_request script 1 get_info s

module _ (decode : Base58Decode) (encode : List ℕ → Text)
    (row_json : TitanHop1Row → Result Text Text) (doc_json : TitanSizeBoardDoc → Result Text Text)
    (fanout : RedisFanout) (has_relay : Bool) (hop1_ttl_secs : ℕ) (hunt_sizes : List ℕ)
    (wallet : Pubkey) where
  -- A binary message goes to the relay and then to the handler.
  unfoldable pub on_binary : List ℕ → Option Value → ℕ → ℕ → ℕ → Shared → Shared
  unfolding handle_titan_server_message
  on_binary bytes value ts now end s =
      let r =
        handle_titan_server_message decode encode row_json doc_json fanout hop1_ttl_secs ts now end
          value s.registry s.board in
      relay_event fanout has_relay (upstream_frame bytes)
        (record s { registry = r.registry; board = r.board; redis = s.redis ++ r.sent })

  -- How the loop over the messages ends: with a kind of disconnect, or with an error returned at once.
  unfoldable pub ending : WsError → Result WsError WsDisconnectKind
  unfolding classify_ws_error
  ending e = if is_transport_error (classify_ws_error e) then err e else ok (classify_ws_error e)

  unfoldable pub read_loop :
      List Event → Bool → Shared → Shared × Bool × Result WsError WsDisconnectKind
  unfolding on_binary ending
  read_loop [] received s = (s, received, ok abrupt_close)
  read_loop (binary_message bytes value ts now end ∷ es) received s =
      read_loop es true (on_binary bytes value ts now end s)
  read_loop (ping none ∷ es) received s = read_loop es received s
  read_loop (ping (some e) ∷ es) received s = (s, received, ending e)
  read_loop (close_message ∷ es) received s = (s, received, ok clean_close)
  read_loop (other_message ∷ es) received s = read_loop es received s
  read_loop (failure e ∷ es) received s = (s, received, ending e)

  -- Both ways out of the loop mark the upstream as disconnected.
  unfoldable pub finish_session :
      Script
      → Shared × Bool × Result WsError WsDisconnectKind
      → Shared × Result WsError SessionOutcome
  unfolding mark_titan_disconnected
  finish_session script (s, received, err e) = (mark_titan_disconnected fanout has_relay s, err e)
  finish_session script (s, received, ok kind) = (
    mark_titan_disconnected fanout has_relay s,
    ok (record { kind = kind; received_data = received; connected_for = script.connected_for }),
  )

  -- The snapshot of the board after the subscriptions; the mints are the source's two constants.
  unfoldable pub with_snapshot : Script → Shared → Shared
  unfolding publish_size_board_snapshot
  with_snapshot script s = record s {
    redis =
        s.redis
        ++ publish_size_board_snapshot decode encode row_json doc_json fanout hop1_ttl_secs 0
            script.snapshot_at 0 s.board (codes "SOL-USDC") (codes "SOL") (codes "USDC");
  }

  unfoldable pub run_session : Script → Shared → Shared × Result WsError SessionOutcome
  unfolding mark_connected start_session send_get_info subscribe_hunt_streams with_snapshot
      read_loop finish_session
  run_session script s = elim (script.connecting) [
    | some e ↦ (s, err e)
    | none ↦
        let (s1, stop1) =
          send_get_info script (start_session hunt_sizes (mark_connected fanout has_relay s)) in
        elim stop1 [
          | some e ↦ (s1, err e)
          | none ↦
              let (s2, stop2) = subscribe_hunt_streams script wallet 2 hunt_sizes s1 in
              elim stop2 [
                | some e ↦ (s2, err e)
                | none ↦
                    finish_session script (read_loop script.events false (with_snapshot script s2))
              ]
        ]
  ]

  -- The backoff after a session and the sleep that follows it.
  unfoldable pub backoff_after : Result WsError SessionOutcome → ReconnectBackoff → ReconnectBackoff
  unfolding should_reset_backoff reset wait
  backoff_after (ok outcome) b =
      wait (if should_reset_backoff outcome.received_data outcome.connected_for then reset b else b)
  backoff_after (err e) b = wait b

  -- One turn of the loop that reconnects.
  unfoldable pub live_turn : Script → Shared × ReconnectBackoff → Shared × ReconnectBackoff
  unfolding run_session mark_titan_disconnected backoff_after
  live_turn script (s, b) =
      let (s', outcome) = run_session script (mark_titan_disconnected fanout has_relay s) in
      (mark_titan_disconnected fanout has_relay s', backoff_after outcome b)

  -- The loop over the sessions so far.
  unfoldable pub run_live_loop : List Script → Shared × ReconnectBackoff → Shared × ReconnectBackoff
  unfolding live_turn
  run_live_loop [] state = state
  run_live_loop (script ∷ scripts) state = run_live_loop scripts (live_turn script state)
