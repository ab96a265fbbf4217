-- ===== src/Titan/Message/Effects.antt =====
-- What a message of Titan's server does to the counters, the board and the registry.
use feed_mux.Prelude.{
  ℕ, ◌≡◌, refl, ◌∙◌, arith, List, true, Option, none, some, if◌then◌else◌, Text, codes, Result, ok,
  inl, inr, Bool-cases, Option-cases,
}
use feed_mux.Prelude.TreeMap.{nat_key, lookup, lookup-insert, lookup-remove, same}
use feed_mux.Config.{Base58Decode}
use feed_mux.Fanout.{
  publish_titan_hop1, publish_titan_size_board, record_titan_message, record_titan_decode_error,
}
use feed_mux.Fanout.Keys
use feed_mux.Fanout.Counters.{gains}
use feed_mux.Fanout.Tally.{live}
use feed_mux.Titan.Value.{Value, map_get, map_contains_key}
use feed_mux.Titan.Registry.{TitanStreamRegistry}
use feed_mux.Titan.Quote.{ParsedHop1Quote, parse_stream_data_hop1}
use feed_mux.Titan.Board.{TitanSizeBoard, TitanSizeBoardDoc, put_pin}
use feed_mux.Titan.Board.Find.{IsKeyed, put_pin-IsKeyed}
use feed_mux.Titan.Message.{
  TitanHop1Row, TitanMessageKind, hop1_published, stream_data_no_hop1, decode_error, error,
  unhandled_message, Handled, row_of, pin_of, publish_size_board_snapshot, publish_hop1_quote,
  handle_titan_server_message,
}

abbrev pub published : TitanMessageKind → ℕ
published hop1_published = 1
published _ = 0

abbrev pub failed : TitanMessageKind → ℕ
failed decode_error = 1
failed error = 1
failed _ = 0

abbrev pub unread : TitanMessageKind → ℕ
unread stream_data_no_hop1 = 1
unread unhandled_message = 1
unread _ = 0

-- The counters that the commands add to, by the kind of the message.
abbrev pub Counts : Handled → Type 0
Counts r =
    (gains Keys.titan_hop1_served r.sent ≡ some (published r.kind))
    × (gains Keys.titan_decoded r.sent ≡ some (published r.kind))
    × (gains Keys.titan_errors r.sent ≡ some (failed r.kind))
    × (gains Keys.titan_fell_through r.sent ≡ some (unread r.kind))
    × (gains Keys.titan_served r.sent ≡ some 0)

module _ (decode : Base58Decode) (encode : List ℕ → Text)
    (row_json : TitanHop1Row → Result Text Text) (doc_json : TitanSizeBoardDoc → Result Text Text)
    (channel : Text) (hop1_ttl_secs ts now end : ℕ) (registry : TitanStreamRegistry)
    (board : TitanSizeBoard) where
  abbrev handled : Option Value → Handled
  handled v =
      handle_titan_server_message decode encode row_json doc_json (live channel) hop1_ttl_secs ts
        now end v registry board

  abbrev quote_handled : ParsedHop1Quote → Handled
  quote_handled quote = record {
    kind = hop1_published;
    registry = registry;
    board =
        (publish_hop1_quote decode encode row_json doc_json (live channel) hop1_ttl_secs ts now end
          board quote).0;
    sent =
        (publish_hop1_quote decode encode row_json doc_json (live channel) hop1_ttl_secs ts now end
          board quote).1;
  }

  quote_handled-Counts :
      (quote : ParsedHop1Quote) (json : Text)
      → row_json (row_of quote ts) ≡ ok json
      → Counts (quote_handled quote)
  unfolding publish_hop1_quote publish_titan_hop1 publish_size_board_snapshot
      publish_titan_size_board record_titan_message Keys.hop1_row_key
  quote_handled-Counts quote json h = ground (arith, h)

  abbrev quote_in : Value → Option ParsedHop1Quote
  quote_in v = parse_stream_data_hop1 decode encode (map_get v (codes "StreamData")) registry

  -- With a live fan-out and rows that serialize, a message adds 1 to `hop1_served` and to `decoded`
  -- exactly if it is handled as a published quote, 1 to `errors` exactly if it does not decode or is
  -- an RPC error, 1 to `fell_through` exactly if it is handled as stream data without a quote or
  -- as no known message, and adds nothing to `served`.
  pub handle_titan_server_message-Counts :
      (v : Option Value)
      → ((row : TitanHop1Row) → (json : Text) × (row_json row ≡ ok json))
      → Counts (handled v)
  unfolding handle_titan_server_message record_titan_message record_titan_decode_error
  handle_titan_server_message-Counts none serial = ground arith
  handle_titan_server_message-Counts (some v) serial =
      elim (Bool-cases (map_contains_key v (codes "StreamData"))) [
        | inl p ↦ elim (Option-cases (quote_in v)) [
          | inl q ↦ rw (handle_titan_server_message, p, q) (ground arith)
          | inr (quote, q) ↦
              rw (handle_titan_server_message, p, q)
                (quote_handled-Counts quote (serial (row_of quote ts)).0
                  (serial (row_of quote ts)).1)
        ]
        | inr p ↦ elim (Bool-cases (map_contains_key v (codes "Response"))) [
          | inl q ↦ rw (handle_titan_server_message, p, q) (ground arith)
          | inr q ↦ elim (Bool-cases (map_contains_key v (codes "Error"))) [
            | inl r ↦ rw (handle_titan_server_message, p, q, r) (ground arith)
            | inr r ↦ rw (handle_titan_server_message, p, q, r) (ground arith)
          ]
        ]
      ]

  -- A message with a quote puts the quote's pin on the board under the quote's size, clears the
  -- mark "unsubscribed" of that size, leaves the pins of other sizes and the registry as they were.
  pub handle_titan_server_message_quote :
      (v : Value) (quote : ParsedHop1Quote) (size : ℕ)
      → map_contains_key v (codes "StreamData") ≡ true
      → quote_in v ≡ some quote
      → (lookup size (handled (some v)).board.pins ≡ (
          if same size quote.size_lamports then some (pin_of quote ts) else lookup size board.pins))
        × (lookup quote.size_lamports (handled (some v)).board.unsubscribed ≡ none)
        × ((handled (some v)).registry ≡ registry)
  unfolding publish_hop1_quote put_pin pin_of handle_titan_server_message lookup
  handle_titan_server_message_quote v quote size p q =
      rw (handle_titan_server_message, p, q)
        (
          lookup-insert quote.size_lamports size (pin_of quote ts) board.pins,
          lookup-remove quote.size_lamports quote.size_lamports board.unsubscribed ∙ ground arith,
          refl,
        )

  -- Every message keeps the pins of the board under their own sizes.
  pub handle_titan_server_message-IsKeyed :
      (v : Option Value) → IsKeyed board.pins → IsKeyed (handled v).board.pins
  unfolding handle_titan_server_message publish_hop1_quote
  handle_titan_server_message-IsKeyed none h = h
  handle_titan_server_message-IsKeyed (some v) h =
      elim (Bool-cases (map_contains_key v (codes "StreamData"))) [
        | inl p ↦ elim (Option-cases (quote_in v)) [
          | inl q ↦ rw (handle_titan_server_message, p, q) h
          | inr (quote, q) ↦
              rw (handle_titan_server_message, p, q) (put_pin-IsKeyed board (pin_of quote ts) h)
        ]
        | inr p ↦ ground (arith, h, p)
      ]
