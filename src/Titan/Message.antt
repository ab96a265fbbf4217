-- ===== src/Titan/Message.antt =====
-- src/titan_quote.rs: the handler of a message from Titan's server. The message comes decoded: none
-- is the failure of `rmpv::decode::read_value`. `row_json` and `doc_json` stand for serde_json on a
-- row and on a document, and the clock is read by the callers: `ts` where the quote is published,
-- `now` where the document is made, `end` where the message is counted.
pub mod Effects
pub mod Streams
use feed_mux.Prelude.{
  ℕ, List, [], ◌∷◌, ◌++◌, Bool, true, false, Option, none, some, if◌then◌else◌, Text, codes, Result,
  ◌>>=◌,
}
use feed_mux.Config.{Base58Decode}
use feed_mux.Fanout.{
  Command, RedisFanout, quote_published, rpc_error, unhandled, publish_titan_hop1,
  publish_titan_size_board, record_titan_message, record_titan_decode_error,
}
use feed_mux.Titan.Value.{Value, map_get, map_contains_key, value_as_u64, value_as_u32}
use feed_mux.Titan.Registry.{TitanStreamRegistry, confirm_stream}
use feed_mux.Titan.Route.{Hop1Leg}
use feed_mux.Titan.Quote.{ParsedHop1Quote, parse_stream_data_hop1}
use feed_mux.Titan.Board.{
  SizeBoardPin, TitanSizeBoard, TitanSizeBoardDoc, put_pin, build_size_board_doc_with_pair,
}

pub record TitanHop1Row : Type 0 where
  pub schema : Text
  pub pair : Text
  pub base : Text
  pub mid : Text
  pub size_lamports : ℕ
  pub ts_ms : ℕ
  pub provider : Text
  pub route_in_amount : ℕ
  pub route_out_amount : ℕ
  pub slippage_bps : ℕ
  pub quote_id : Option Text
  pub stream_id : ℕ
  pub stream_seq : ℕ
  pub hop1 : Hop1Leg

pub data TitanMessageKind : Type 0 where
  hop1_published stream_data_no_hop1 decode_error response error unhandled_message :
      TitanMessageKind

-- The kind, the registry and the board after the message, and the commands to Redis.
pub record Handled : Type 0 where
  pub kind : TitanMessageKind
  pub registry : TitanStreamRegistry
  pub board : TitanSizeBoard
  pub sent : List Command

unfoldable pub row_of : ParsedHop1Quote → ℕ → TitanHop1Row
row_of quote ts = record {
  schema = codes "mux.titan.hop1.v1";
  pair = quote.pair;
  base = quote.base;
  mid = quote.mid;
  size_lamports = quote.size_lamports;
  ts_ms = ts;
  provider = quote.provider;
  route_in_amount = quote.route_in_amount;
  route_out_amount = quote.route_out_amount;
  slippage_bps = quote.slippage_bps;
  quote_id = quote.quote_id;
  stream_id = quote.stream_id;
  stream_seq = quote.stream_seq;
  hop1 = quote.hop1;
}

unfoldable pub pin_of : ParsedHop1Quote → ℕ → SizeBoardPin
pin_of quote ts = record {
  size_lamports = quote.size_lamports;
  hop1_age_ms = 0;
  hop1_fresh_ms = ts;
  provider = quote.provider;
  venue_label = quote.hop1.label;
  route_in_amount = quote.route_in_amount;
  route_out_amount = quote.route_out_amount;
  status = none;
}

abbrev option_or : Option Value → Option Value → Option Value
option_or none o = o
option_or (some v) o = some v

-- The request and the stream that a response confirms.
unfoldable pub confirmation : Value → Option (ℕ × ℕ)
unfolding map_get value_as_u64 value_as_u32
confirmation value = do
  reply ← map_get value (codes "Response")
  request ← map_get reply (codes "requestId")
  request_id ← value_as_u64 request
  body ← map_get reply (codes "data")
  stream ← option_or (map_get reply (codes "stream")) (
      option_or (map_get reply (codes "StreamStart"))
        (option_or (map_get body (codes "stream")) (map_get body (codes "StreamStart"))))
  id ← map_get stream (codes "id")
  stream_id ← value_as_u32 id
  some (request_id, stream_id)

unfoldable pub register_stream_from_response : Value → TitanStreamRegistry → TitanStreamRegistry
unfolding confirmation confirm_stream
register_stream_from_response value registry = elim (confirmation value) [
  | none ↦ registry
  | some (request_id, stream_id) ↦ confirm_stream registry request_id stream_id
]

module _ (decode : Base58Decode) (encode : List ℕ → Text)
    (row_json : TitanHop1Row → Result Text Text) (doc_json : TitanSizeBoardDoc → Result Text Text)
    (fanout : RedisFanout) (hop1_ttl_secs ts now end : ℕ) where
  unfoldable pub publish_size_board_snapshot : TitanSizeBoard → Text → Text → Text → List Command
  unfolding publish_titan_size_board build_size_board_doc_with_pair
  publish_size_board_snapshot board pair base mid =
      publish_titan_size_board fanout doc_json
        (build_size_board_doc_with_pair board now pair base mid)

  unfoldable pub publish_hop1_quote :
      TitanSizeBoard → ParsedHop1Quote → TitanSizeBoard × List Command
  unfolding put_pin publish_titan_hop1 publish_size_board_snapshot record_titan_message
  publish_hop1_quote board quote =
      let board' = put_pin board (pin_of quote ts) in
      (
        board',
        publish_titan_hop1 fanout row_json (row_of quote ts) quote.pair quote.size_lamports
              hop1_ttl_secs
            ++ publish_size_board_snapshot board' quote.pair quote.base quote.mid
            ++ record_titan_message fanout quote_published end,
      )

  unfoldable pub handle_titan_server_message :
      Option Value → TitanStreamRegistry → TitanSizeBoard → Handled
  unfolding map_contains_key map_get parse_stream_data_hop1 publish_hop1_quote
      record_titan_decode_error record_titan_message register_stream_from_response
  handle_titan_server_message none registry board = record {
    kind = decode_error;
    registry = registry;
    board = board;
    sent = record_titan_decode_error fanout;
  }
  handle_titan_server_message (some value) registry board =
      if map_contains_key value (codes "StreamData")
      then elim (parse_stream_data_hop1 decode encode (map_get value (codes "StreamData"))
          registry) [
            | some quote ↦ record {
              kind = hop1_published;
              registry = registry;
              board = (publish_hop1_quote board quote).0;
              sent = (publish_hop1_quote board quote).1;
            }
            | none ↦ record {
              kind = stream_data_no_hop1;
              registry = registry;
              board = board;
              sent = record_titan_message fanout unhandled end;
            }
          ]
      else if map_contains_key value (codes "Response")
      then record {
        kind = response;
        registry = register_stream_from_response value registry;
        board = board;
        sent = [];
      }
      else if map_contains_key value (codes "Error")
      then record {
        kind = error;
        registry = registry;
        board = board;
        sent = record_titan_message fanout rpc_error end;
      }
      else record {
        kind = unhandled_message;
        registry = registry;
        board = board;
        sent = record_titan_message fanout unhandled end;
      }
