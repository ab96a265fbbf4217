-- ===== src/Titan/Session/History.antt =====
-- What the messages of the sessions are, told from the messages and the streams that the responses
-- before them have made known.
use feed_mux.Prelude.{
  ℕ, ◌≡◌, refl, arith, List, [], ◌∷◌, ◌++◌, Bool, Option, none, some, if◌then◌else◌, Text, codes,
  Result, Bool-cases, Option-cases, inl, inr,
}
use feed_mux.Config.{Base58Decode, Pubkey}
use feed_mux.Fanout.{RedisFanout}
use feed_mux.Reconnect.{ReconnectBackoff}
use feed_mux.Titan.Value.{Value, map_get, map_contains_key}
use feed_mux.Titan.Registry.{TitanStreamRegistry}
use feed_mux.Titan.Quote.{parse_stream_data_hop1}
use feed_mux.Titan.Board.{TitanSizeBoard, TitanSizeBoardDoc}
use feed_mux.Titan.Message.{
  TitanHop1Row, TitanMessageKind, hop1_published, stream_data_no_hop1, decode_error, response,
  error, unhandled_message, handle_titan_server_message,
}
use feed_mux.Titan.Session.{
  Shared, Script, Event, binary_message, ping, close_message, other_message, failure,
  mark_titan_disconnected, mark_connected, start_session, send_get_info, subscribe_hunt_streams,
  live_turn,
}
use feed_mux.Titan.Session.Pins.{quote_of, registry_after}

module _ (decode : Base58Decode) (encode : List ℕ → Text) where
  abbrev pub kind_of : Option Value → TitanStreamRegistry → TitanMessageKind
  kind_of none registry = decode_error
  kind_of (some v) registry =
      if map_contains_key v (codes "StreamData")
      then (elim (quote_of decode encode (some v) registry) [
        | none ↦ stream_data_no_hop1
        | some quote ↦ hop1_published
      ])
      else if map_contains_key v (codes "Response")
      then response
      else if map_contains_key v (codes "Error")
      then error
      else unhandled_message

  -- The messages up to the end of a session.
  abbrev pub kinds : List Event → TitanStreamRegistry → List TitanMessageKind
  kinds [] registry = []
  kinds (binary_message bytes value ts now end ∷ es) registry =
      kind_of value registry ∷ kinds es (registry_after decode encode value registry)
  kinds (ping none ∷ es) registry = kinds es registry
  kinds (ping (some e) ∷ es) registry = []
  kinds (close_message ∷ es) registry = []
  kinds (other_message ∷ es) registry = kinds es registry
  kinds (failure e ∷ es) registry = []

  module _ (row_json : TitanHop1Row → Result Text Text)
      (doc_json : TitanSizeBoardDoc → Result Text Text) (fanout : RedisFanout) (ttl : ℕ) where
    pub handled-kind_of :
        (v : Option Value) (ts now end : ℕ) (registry : TitanStreamRegistry)
        (board : TitanSizeBoard)
        → (handle_titan_server_message decode encode row_json doc_json fanout ttl ts now end v
            registry board).kind
          ≡ kind_of v registry
    unfolding handle_titan_server_message
    handled-kind_of none ts now end registry board = refl
    handled-kind_of (some v) ts now end registry board =
        elim (Bool-cases (map_contains_key v (codes "StreamData"))) [
          | inl p ↦
              elim (Option-cases
                (parse_stream_data_hop1 decode encode (map_get v (codes "StreamData")) registry)) [
                  | inl q ↦ rw (handle_titan_server_message, p, q) refl
                  | inr (quote, q) ↦ rw (handle_titan_server_message, p, q) refl
                ]
          | inr p ↦ ground (arith, p)
        ]

    module _ (has_relay : Bool) (hunt_sizes : List ℕ) (wallet : Pubkey) where
      -- Those of a session: none, unless the subscriptions succeed.
      unfoldable pub session_kinds : Script → Shared → List TitanMessageKind
      unfolding start_session mark_connected send_get_info subscribe_hunt_streams
      session_kinds script s = elim (script.connecting) [
        | some e ↦ []
        | none ↦
            let (s1, stop1) =
              send_get_info script (start_session hunt_sizes (mark_connected fanout has_relay s)) in
            elim stop1 [
              | some e ↦ []
              | none ↦
                  let (s2, stop2) = subscribe_hunt_streams script wallet 2 hunt_sizes s1 in
                  elim stop2 [ some e ↦ [] | none ↦ kinds script.events s2.registry ]
            ]
      ]

      abbrev pub history : List Script → Shared × ReconnectBackoff → List TitanMessageKind
      history [] state = []
      history (script ∷ scripts) (s, b) =
          session_kinds script (mark_titan_disconnected fanout has_relay s)
          ++ history scripts (
              live_turn decode encode row_json doc_json fanout has_relay ttl hunt_sizes wallet
                script (s, b))
