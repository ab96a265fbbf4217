-- ===== src/Titan/Session/Pins.antt =====
-- The pins of the size board against the quotes of the session.
use feed_mux.Prelude.{
  ℕ, ◌≡◌, refl, sym, ap, ◌∙◌, arith, List, [], ◌∷◌, ◌++◌, Bool, true, Option, none, some,
  if◌then◌else◌, Text, codes, Result, Bool-cases, Option-cases, inl, inr,
}
use feed_mux.Prelude.TreeMap.{nat_key, same, lookup, lookup-insert}
use feed_mux.Config.{Base58Decode, Pubkey}
use feed_mux.Fanout.{RedisFanout}
use feed_mux.Reconnect.{WsError, WsDisconnectKind}
use feed_mux.Titan.Value.{Value, map_get, map_contains_key}
use feed_mux.Titan.Registry.{TitanStreamRegistry}
use feed_mux.Titan.Quote.{ParsedHop1Quote, parse_stream_data_hop1}
use feed_mux.Titan.Board.{SizeBoardPin, TitanSizeBoard, TitanSizeBoardDoc, put_pin}
use feed_mux.Titan.Board.Find.{or_else}
use feed_mux.Titan.Message.{
  TitanHop1Row, Handled, pin_of, publish_hop1_quote, register_stream_from_response,
  handle_titan_server_message,
}
use feed_mux.Titan.Session.{
  Shared, Event, binary_message, ping, close_message, other_message, failure, on_binary, read_loop,
}

-- The last pin of a size.
abbrev pub latest : ℕ → List SizeBoardPin → Option SizeBoardPin
latest size [] = none
latest size (p ∷ ps) = or_else (latest size ps) (if same size p.size_lamports then some p else none)

abbrev pub as_pin : ℕ → Option ParsedHop1Quote → List SizeBoardPin
as_pin ts none = []
as_pin ts (some quote) = pin_of quote ts ∷ []

latest-append :
    (size : ℕ) (ps qs : List SizeBoardPin)
    → latest size (ps ++ qs) ≡ or_else (latest size qs) (latest size ps)
latest-append size [] qs = ground arith
latest-append size (p ∷ ps) qs = ground (arith, latest-append size ps qs)

or_else_assoc : (o p q : Option SizeBoardPin) → or_else (or_else o p) q ≡ or_else o (or_else p q)
or_else_assoc none p q = refl
or_else_assoc (some x) p q = refl

module _ (decode : Base58Decode) (encode : List ℕ → Text) where
  -- The quote of a message, where the registry knows the streams.
  abbrev pub quote_of : Option Value → TitanStreamRegistry → Option ParsedHop1Quote
  quote_of none registry = none
  quote_of (some v) registry =
      if map_contains_key v (codes "StreamData")
      then parse_stream_data_hop1 decode encode (map_get v (codes "StreamData")) registry
      else none

  -- A response may make a stream known.
  abbrev pub registry_after : Option Value → TitanStreamRegistry → TitanStreamRegistry
  registry_after none registry = registry
  registry_after (some v) registry =
      if map_contains_key v (codes "StreamData")
      then registry
      else if map_contains_key v (codes "Response")
      then register_stream_from_response v registry
      else registry

  -- The pins of the quotes up to the end of the session, in the order of the messages.
  abbrev pub quoted_pins : List Event → TitanStreamRegistry → List SizeBoardPin
  quoted_pins [] registry = []
  quoted_pins (binary_message bytes value ts now end ∷ es) registry =
      as_pin ts (quote_of value registry) ++ quoted_pins es (registry_after value registry)
  quoted_pins (ping none ∷ es) registry = quoted_pins es registry
  quoted_pins (ping (some e) ∷ es) registry = []
  quoted_pins (close_message ∷ es) registry = []
  quoted_pins (other_message ∷ es) registry = quoted_pins es registry
  quoted_pins (failure e ∷ es) registry = []

  module _ (row_json : TitanHop1Row → Result Text Text)
      (doc_json : TitanSizeBoardDoc → Result Text Text) (fanout : RedisFanout) (ttl : ℕ) where
    -- What a message does to the board and to the registry.
    abbrev Effect : Option Value → ℕ → TitanStreamRegistry → TitanSizeBoard → ℕ → Handled → Type 0
    Effect v ts registry board size r =
        (lookup size r.board.pins
          ≡ or_else (latest size (as_pin ts (quote_of v registry))) (lookup size board.pins))
        × (r.registry ≡ registry_after v registry)

    pub handled-Effect :
        (v : Option Value) (ts now end size : ℕ) (registry : TitanStreamRegistry)
        (board : TitanSizeBoard)
        → Effect v ts registry board size (
            handle_titan_server_message decode encode row_json doc_json fanout ttl ts now end v
              registry board)
    unfolding handle_titan_server_message publish_hop1_quote put_pin pin_of
    handled-Effect none ts now end size registry board = (refl, refl)
    handled-Effect (some v) ts now end size registry board =
        elim (Bool-cases (map_contains_key v (codes "StreamData"))) [
          | inl p ↦
              elim (Option-cases
                (parse_stream_data_hop1 decode encode (map_get v (codes "StreamData")) registry)) [
                  | inl q ↦ rw (handle_titan_server_message, p, q) (refl, refl)
                  | inr (quote, q) ↦
                      rw (handle_titan_server_message, p, q)
                        (
                          lookup-insert quote.size_lamports size (pin_of quote ts) board.pins
                              ∙ ground arith,
                          refl,
                        )
                ]
          | inr p ↦ elim (Bool-cases (map_contains_key v (codes "Response"))) [
            | inl q ↦ rw (handle_titan_server_message, p, q) (refl, refl)
            | inr q ↦ elim (Bool-cases (map_contains_key v (codes "Error"))) [
              | inl r ↦ rw (handle_titan_server_message, p, q, r) (refl, refl)
              | inr r ↦ rw (handle_titan_server_message, p, q, r) (refl, refl)
            ]
          ]
        ]

    module _ (hunt_sizes : List ℕ) (wallet : Pubkey) where
      abbrev loop : List Event → Bool → Shared → Shared × Bool × Result WsError WsDisconnectKind
      loop = read_loop decode encode row_json doc_json fanout true ttl hunt_sizes wallet

      -- After the messages of a session the board holds, for each size, the pin of the last message that
      -- quotes the size by a stream which the responses before it have made known, with the time of that
      -- message; for a size that no message quotes, it holds the pin that it held before, if any.
      pub read_loop-quoted_pins :
          (size : ℕ) (es : List Event) (received : Bool) (s : Shared)
          → lookup size (loop es received s).0.board.pins
            ≡ or_else (latest size (quoted_pins es s.registry)) (lookup size s.board.pins)
      unfolding read_loop on_binary
      read_loop-quoted_pins size [] received s = refl
      read_loop-quoted_pins size (binary_message bytes value ts now end ∷ es) received s =
          let s' =
            on_binary decode encode row_json doc_json fanout true ttl hunt_sizes wallet bytes value
              ts now end s in
          let (pin, known) = handled-Effect value ts now end size s.registry s.board in
          let first = as_pin ts (quote_of value s.registry) in
          let later = quoted_pins es (registry_after value s.registry) in
          read_loop-quoted_pins size es true s'
          ∙ ap (λ r. or_else (latest size (quoted_pins es r)) (lookup size s'.board.pins)) known
          ∙ ap (or_else (latest size later)) pin
          ∙ sym (or_else_assoc (latest size later) (latest size first) (lookup size s.board.pins))
          ∙ ap (λ o. or_else o (lookup size s.board.pins)) (sym (latest-append size first later))
      read_loop-quoted_pins size (ping none ∷ es) received s =
          read_loop-quoted_pins size es received s
      read_loop-quoted_pins size (ping (some e) ∷ es) received s = refl
      read_loop-quoted_pins size (close_message ∷ es) received s = refl
      read_loop-quoted_pins size (other_message ∷ es) received s =
          read_loop-quoted_pins size es received s
      read_loop-quoted_pins size (failure e ∷ es) received s = refl
