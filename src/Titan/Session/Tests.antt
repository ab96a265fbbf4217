-- ===== src/Titan/Session/Tests.antt =====
-- A session with the subscriptions of two sizes, one of them refused by the rate limiter.
use feed_mux.Prelude.{◌≡◌, refl, List, [], ◌∷◌, true, false, none, some, codes, ◌==◌, not, ◌*◌}
use feed_mux.Prelude.TreeMap.{nat_key, lookup, insert}
use feed_mux.Fanout.Tally.{live}
use feed_mux.Fanout.Store.{store_server}
use feed_mux.Reconnect.{ReconnectBackoff, new_backoff, nanos_per_sec, connection_closed}
use feed_mux.Titan.Registry.{cleared, register_pending_request, confirm_stream}
use feed_mux.Titan.Board.{cleared_board}
use feed_mux.Titan.Message.{
  pin_of, register_stream_from_response, confirmation, handle_titan_server_message,
}
use feed_mux.Titan.Request.{get_info, quote_stream_request}
use feed_mux.Titan.Session.Written.{run_session-written}
use feed_mux.Titan.Session.{
  Shared, Script, Event, binary_message, ping, close_message, failure, subscribe_size,
  subscribe_hunt_streams, read_loop, send_request, run_session, run_live_loop, mark_connected,
  start_session, send_get_info, on_binary, finish_session, mark_titan_disconnected, with_snapshot,
}
use feed_mux.Titan.Session.Subscribe.{is_settled, subscribe_hunt_streams-is_settled}
use feed_mux.Titan.Session.Ends.{IsDown, run_live_loop-IsDown}
use feed_mux.Titan.Session.Streams.{Asked, run_session-streams}
use feed_mux.Titan.Session.Pins.{read_loop-quoted_pins}
use feed_mux.Titan.Tests.{decode, encode, row_json, doc_json, frame, registry, quote, reply}
use feed_mux.Titan.Quote.{parse_stream_data_hop1}
use feed_mux.Titan.Value.{map_contains_key}

abbrev fresh : Shared
fresh = record {
  connected = false;
  relayed = [];
  registry = cleared;
  board = cleared_board;
  redis = [];
  written = [];
}

-- Two frames that do not decode, then a broken connection; the request 3 is refused.
abbrev events : List Event
events =
    binary_message (1 ∷ []) none 10 11 12
    ∷ ping none
    ∷ binary_message (2 ∷ []) none 13 14 15
    ∷ failure connection_closed
    ∷ binary_message (3 ∷ []) none 16 17 18
    ∷ []

abbrev script : Script
script = record {
  connecting = none;
  allow = λ id. not (id == 3);
  encoding = λ id. none;
  send = λ id. none;
  events = events;
  connected_for = 0;
  snapshot_at = 9;
}

abbrev backoff : ReconnectBackoff
backoff = new_backoff (5 * nanos_per_sec) (30 * nanos_per_sec)

run_live_loop-IsDown_example :
    IsDown store_server
      (λ key. none)
      (run_live_loop decode encode row_json doc_json
        (live (codes "feed:350"))
        true
        2
        (250000000 ∷ 500000000 ∷ [])
        []
        (script ∷ [])
        (fresh, backoff)).0
run_live_loop-IsDown_example =
    run_live_loop-IsDown store_server (λ key. none) (codes "feed:350") decode encode row_json
      doc_json 2 (250000000 ∷ 500000000 ∷ []) [] script [] (fresh, backoff)

subscribe_hunt_streams-is_settled_example :
    is_settled script [] 3 500000000
      (subscribe_hunt_streams script [] 2 (250000000 ∷ 500000000 ∷ []) fresh).0
    ≡ true
unfolding subscribe_hunt_streams subscribe_size send_request
subscribe_hunt_streams-is_settled_example =
    subscribe_hunt_streams-is_settled script [] 2 1 500000000 (250000000 ∷ 500000000 ∷ []) fresh
      refl refl

-- A quote, a message that is no quote, and the end.
abbrev quoting : List Event
quoting =
    binary_message (1 ∷ []) (some frame) 1000 1001 1002
    ∷ binary_message (2 ∷ []) none 1003 1004 1005
    ∷ close_message
    ∷ binary_message (3 ∷ []) (some frame) 2000 2001 2002
    ∷ []

abbrev known : Shared
known = record fresh { registry = registry }

read_loop-quoted_pins_example :
    lookup 1000000000
      (read_loop decode encode row_json doc_json
        (live (codes "feed:350"))
        true
        2
        []
        []
        quoting
        false
        known).0.board.pins
    ≡ some (pin_of quote 1000)
unfolding map_contains_key parse_stream_data_hop1 lookup register_stream_from_response
    register_pending_request insert pin_of
read_loop-quoted_pins_example =
    read_loop-quoted_pins decode encode row_json doc_json (live (codes "feed:350")) 2 [] []
      1000000000 quoting false known

-- The request 3 is refused.
run_session-written_example :
    (run_session decode encode row_json doc_json
      (live (codes "feed:350"))
      true
      2
      (250000000 ∷ 500000000 ∷ [])
      []
      script
      fresh).0.written
    ≡ record { id = 1; body = get_info }
      ∷ record { id = 2; body = quote_stream_request [] 250000000 }
      ∷ []
run_session-written_example =
    run_session-written decode encode row_json doc_json (live (codes "feed:350")) true 2
      (250000000 ∷ 500000000 ∷ []) [] script fresh

-- Titan confirms the stream 42 of the request 2.
abbrev confirming : Script
confirming = record script {
  events = binary_message (1 ∷ []) (some reply) 10 11 12 ∷ close_message ∷ [];
}

run_session-streams_example : Asked confirming (1000000000 ∷ []) [] 1000000000
unfolding run_session mark_connected start_session send_get_info subscribe_hunt_streams
    subscribe_size send_request read_loop on_binary handle_titan_server_message finish_session
    mark_titan_disconnected with_snapshot register_stream_from_response register_pending_request
    confirmation confirm_stream map_contains_key lookup insert
run_session-streams_example =
    run_session-streams confirming (1000000000 ∷ []) [] decode encode row_json doc_json
      (live (codes "feed:350")) true 2 known 42 1000000000 refl refl
