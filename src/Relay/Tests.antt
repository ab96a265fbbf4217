-- ===== src/Relay/Tests.antt =====
-- Clients of the two relays: one that is served a whole session, one that lags behind, and one of
-- the gRPC service.
use feed_mux.Prelude.{
  ℕ, ◌*◌, ◌≡◌, refl, arith, ◌++◌, List, [], ◌∷◌, map, true, false, none, some, Text, codes, Result,
  ok, if◌then◌else◌, is_ok, contains,
}
use feed_mux.Prelude.Words.{trim}
use feed_mux.Config.{Base58Decode}
use feed_mux.Fanout.{FeedPayload}
use feed_mux.Fanout.Tally.{live}
use feed_mux.Reconnect.{
  ReconnectBackoff, new_backoff, nanos_per_sec, connection_closed, to_ascii_lowercase,
}
use feed_mux.Titan.Registry.{cleared}
use feed_mux.Titan.Board.{TitanSizeBoardDoc, cleared_board}
use feed_mux.Titan.Message.{TitanHop1Row}
use feed_mux.Titan.Session
use feed_mux.Titan.Session.{
  Shared, Event, binary_message, failure, upstream_frame, upstream_connected, read_loop,
}
use feed_mux.Titan.Session.Relay.{frames_of}
use feed_mux.Upstream.Triton
use feed_mux.Upstream.Triton.{
  UpdateRow, Update, TritonScript, TritonShared, slot, ping, other_update, update_event,
  normalize_grpc_endpoint, triton_turn,
}
use feed_mux.Relay.Channel.{Received, value, lagged, so_far, next, after_lag}
use feed_mux.Relay.TitanClient.{
  Turn, from_channel, from_client, client_ping, client_close, client_other, client_loop, message_of,
}
use feed_mux.Relay.TitanClient.Order.{InOrder, relayed, client_loop-InOrder, client_loop-read_loop}
use feed_mux.Relay.TritonService.{stream_of}
use feed_mux.Relay.TritonService.Refusal.{IsRefusing, run_triton_loop-IsRefusing}
use feed_mux.Upstream.Triton.{run_triton_loop, running}
use feed_mux.Fanout.Store.{store_server}
use feed_mux.Relay.TritonService.Stream.{stream_of-triton_turn, consumed, outcome, lost}

-- The client sends a ping, misses two events and closes.
abbrev turns : List Turn
turns =
    from_channel (value (upstream_frame (1 ∷ []))) none
    ∷ from_client (client_ping none)
    ∷ from_channel (lagged 2) none
    ∷ from_channel (value (upstream_connected false)) none
    ∷ from_client client_close
    ∷ []

abbrev sent : List Session.TitanLocalEvent
sent =
    upstream_frame (1 ∷ [])
    ∷ upstream_frame (2 ∷ [])
    ∷ upstream_frame (3 ∷ [])
    ∷ upstream_connected false
    ∷ upstream_connected true
    ∷ []

client_loop-InOrder_example : InOrder sent 2 (relayed (client_loop turns).0)
client_loop-InOrder_example =
    client_loop-InOrder turns sent (next (after_lag (omega arith) (next so_far)))

abbrev no_base58 : Base58Decode
no_base58 s = none

abbrev identity : List ℕ → Text
identity bytes = bytes

abbrev row_json : TitanHop1Row → Result Text Text
row_json row = ok row.pair

abbrev doc_json : TitanSizeBoardDoc → Result Text Text
doc_json doc = ok doc.schema

abbrev fresh : Shared
fresh = record {
  connected = true;
  relayed = upstream_connected false ∷ upstream_connected true ∷ [];
  registry = cleared;
  board = cleared_board;
  redis = [];
  written = [];
}

-- Two frames that do not decode, then a broken connection.
abbrev events : List Event
events =
    binary_message (1 ∷ []) none 10 11 12
    ∷ Session.ping none
    ∷ binary_message (2 ∷ []) none 13 14 15
    ∷ failure connection_closed
    ∷ []

abbrev whole : List Turn
whole =
    from_channel (value (upstream_frame (1 ∷ []))) none
    ∷ from_client client_other
    ∷ from_channel (value (upstream_frame (2 ∷ []))) none
    ∷ []

client_loop-read_loop_example : relayed (client_loop whole).0 ≡ map message_of (frames_of events)
unfolding client_loop read_loop
client_loop-read_loop_example =
    client_loop-read_loop no_base58 identity row_json doc_json (live (codes "feed:350")) 2 [] []
      events false fresh whole refl refl

abbrev feed_json : FeedPayload UpdateRow → Result Text Text
feed_json payload = ok payload.event

abbrev update : ℕ → Update ℕ
update n = record {
  body = n;
  kind = slot;
  now = n;
  now_text = [];
  reply = none;
  pong_allowed = true;
  pong_error = none;
}

-- The ping of the second update cannot be answered.
abbrev script : TritonScript ℕ
script = record {
  allowed = true;
  connecting = none;
  updates =
      update 1
      ∷ record (update 2) { kind = ping; pong_error = some (codes "broken pipe") }
      ∷ update 3
      ∷ [];
  stream_end = none;
}

abbrev idle : TritonShared ℕ
idle = record { connected = false; auth_blocked = false; relayed = []; redis = [] }

abbrev backoff : ReconnectBackoff
backoff = new_backoff (5 * nanos_per_sec) (30 * nanos_per_sec)

abbrev stream : List (Received (Triton.TritonLocalEvent ℕ))
stream =
    value (update_event 1) ∷ value (update_event 2) ∷ value (Triton.upstream_connected false) ∷ []

stream_of-triton_turn_example :
    stream_of stream
    ≡ map ok
        (consumed feed_json (live (codes "feed:350")) (codes "grpc.example.test") script.updates)
      ++ (lost
          ∷ (if is_ok
                (outcome feed_json
                  (live (codes "feed:350"))
                  (codes "grpc.example.test")
                  script
                  idle).1
              then lost ∷ []
              else []))
unfolding triton_turn normalize_grpc_endpoint trim contains to_ascii_lowercase
stream_of-triton_turn_example =
    stream_of-triton_turn feed_json (live (codes "feed:350")) (codes "grpc.example.test") script
      idle backoff (codes "https://grpc.example.test") stream refl refl refl refl

run_triton_loop-IsRefusing_example :
    IsRefusing store_server
      (λ key. none)
      (run_triton_loop feed_json
        (live (codes "feed:350"))
        true
        (codes "grpc.example.test")
        (script ∷ record script { connecting = some (codes "Status: 403") } ∷ script ∷ [])
        (idle, backoff, running)).0
run_triton_loop-IsRefusing_example =
    run_triton_loop-IsRefusing store_server (λ key. none) (codes "feed:350") feed_json
      (codes "grpc.example.test") script
      (record script { connecting = some (codes "Status: 403") } ∷ script ∷ []) idle backoff
