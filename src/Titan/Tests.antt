-- ===== src/Titan/Tests.antt =====
-- Runs of the Titan upstream's definitions, and their theorems at concrete inputs. The message is that
-- of the source's test `extracts_hop1_from_stream_data_fixture`, with two providers.
use feed_mux.Prelude.{
  ℕ, ◌≡◌, refl, List, [], ◌∷◌, none, some, if◌then◌else◌, Text, codes, text_eq, Result, ok, pos,
  replicate, filter, arith,
}
use feed_mux.Prelude.TreeMap.{nat_key, lookup, insert, remove}
use feed_mux.Prelude.Words.{trim, split, parse_unsigned, parse_digits}
use feed_mux.Config.{Base58Decode}
use feed_mux.Titan.Value.{
  Value, integer, string, binary, map_of, Entries, no_entry, entry, value_as_map,
}
use feed_mux.Titan.Sizes.{
  parse_hunt_sizes, parsed_sizes, positive_sizes, sort, insert_sorted, dedup,
}
use feed_mux.Titan.Sizes.Order.{mem, asked, mem-parse_hunt_sizes}
use feed_mux.Titan.Registry.{TitanStreamRegistry, cleared, register_pending_request}
use feed_mux.Titan.Route.{Candidate, candidates, expected_winner, select_best_route, chosen}
use feed_mux.Titan.Route.Best.{IsIn, IsMost, select_best_route-IsMost}
use feed_mux.Titan.Quote.{ParsedHop1Quote, parse_stream_data_hop1, sol_mint, usdc_mint}
use feed_mux.Titan.Board.{
  TitanSizeBoard, TitanSizeBoardDoc, build_size_board_doc_with_pair, cleared_board, init_hunt_sizes,
  mark_unsubscribed, put_pin,
}
use feed_mux.Titan.Board.Find.{is_of, IsOrdered, expected_lines, build_size_board_doc_with_pair_lem}
use feed_mux.Titan.Message.{
  TitanHop1Row, confirmation, handle_titan_server_message, pin_of, register_stream_from_response,
}
use feed_mux.Titan.Message.Effects.{Counts, handle_titan_server_message-Counts}
use feed_mux.Titan.Message.Streams.{confirmed, parse_stream_data_hop1-confirmed}
use feed_mux.Fanout.Tally.{live}

abbrev ladder : Text
ladder = codes " 1000000000,250000000, x,0,1000000000"

sorted_ladder : parse_hunt_sizes (some ladder) ≡ 250000000 ∷ 1000000000 ∷ []
unfolding parse_hunt_sizes trim split parse_digits parse_unsigned parsed_sizes positive_sizes sort
    insert_sorted dedup
sorted_ladder = refl

mem-parse_hunt_sizes_example :
    mem 250000000 (parse_hunt_sizes (some ladder)) ≡ asked ladder 250000000
unfolding trim split parse_digits parse_unsigned
mem-parse_hunt_sizes_example = mem-parse_hunt_sizes ladder 250000000 1000000000 refl refl

abbrev fields : List (Text × Value) → Entries
fields [] = no_entry
fields ((k, v) ∷ es) = entry (string (some k)) v (fields es)

abbrev number : ℕ → Value
number n = integer (pos n)

abbrev sol_bytes : List ℕ
sol_bytes = replicate 32 6

abbrev usdc_bytes : List ℕ
usdc_bytes = replicate 32 198

abbrev pub decode : Base58Decode
decode s = none

abbrev pub encode : List ℕ → Text
encode bytes =
    if text_eq bytes sol_bytes then sol_mint else if text_eq bytes usdc_bytes then usdc_mint else []

abbrev direct_route : ℕ → Value
direct_route out =
    map_of (fields ((codes "inAmount", number 1000000000) ∷ (codes "outAmount", number out) ∷ []))

abbrev quotes_map : Value
quotes_map =
    map_of (
      fields ((codes "slow", direct_route 140000000) ∷ (codes "fast", direct_route 150000000) ∷ []))

abbrev two_quotes : List (Value × Value)
two_quotes =
    (string (some (codes "slow")), direct_route 140000000)
    ∷ (string (some (codes "fast")), direct_route 150000000)
    ∷ []

abbrev swap_quotes : Value
swap_quotes = map_of (
    fields (
      (codes "id", string (some (codes "q-1")))
      ∷ (codes "inputMint", binary sol_bytes)
      ∷ (codes "outputMint", binary usdc_bytes)
      ∷ (codes "amount", number 7)
      ∷ (codes "quotes", quotes_map)
      ∷ []))

abbrev stream_data : Value
stream_data = map_of (
    fields (
      (codes "id", number 42)
      ∷ (codes "seq", number 7)
      ∷ (codes "payload", map_of (fields ((codes "SwapQuotes", swap_quotes) ∷ [])))
      ∷ []))

abbrev pub reply : Value
reply = map_of (
    fields (
      (
        codes "Response",
        map_of (
            fields (
              (codes "requestId", number 2)
              ∷ (codes "data", map_of no_entry)
              ∷ (codes "stream", map_of (fields ((codes "id", number 42) ∷ [])))
              ∷ [])),
      )
      ∷ []))

abbrev pub quote : ParsedHop1Quote
quote = record {
  pair = codes "SOL-USDC";
  base = codes "SOL";
  mid = codes "USDC";
  size_lamports = 1000000000;
  provider = codes "fast";
  route_in_amount = 1000000000;
  route_out_amount = 150000000;
  slippage_bps = 0;
  quote_id = some (codes "q-1");
  stream_id = 42;
  stream_seq = 7;
  hop1 = record {
    label = codes "direct";
    amm_key = [];
    input_mint = [];
    output_mint = [];
    in_amount = 1000000000;
    out_amount = 150000000;
    context_slot = none;
  };
}

abbrev pub registry : TitanStreamRegistry
registry = confirmed cleared 2 1000000000 reply

parse_stream_data_hop1-confirmed_example : quote.size_lamports ≡ 1000000000
unfolding confirmation parse_stream_data_hop1 lookup register_stream_from_response
    register_pending_request insert
parse_stream_data_hop1-confirmed_example =
    parse_stream_data_hop1-confirmed decode encode cleared 2 42 1000000000 reply stream_data quote
      refl refl refl

select_best_route-IsMost_example :
    (c : Candidate) × (select_best_route quotes_map swap_quotes ≡ some (chosen c))
    × IsIn c (candidates two_quotes)
    × IsMost c (candidates two_quotes)
unfolding value_as_map expected_winner candidates
select_best_route-IsMost_example =
    select_best_route-IsMost quotes_map swap_quotes two_quotes refl refl refl

abbrev pub row_json : TitanHop1Row → Result Text Text
row_json row = ok row.pair

abbrev pub doc_json : TitanSizeBoardDoc → Result Text Text
doc_json doc = ok doc.schema

abbrev board : TitanSizeBoard
board = mark_unsubscribed (init_hunt_sizes cleared_board (1000000000 ∷ 2500000000 ∷ [])) 2500000000

abbrev pub frame : Value
frame = map_of (fields ((codes "StreamData", stream_data) ∷ []))

handle_titan_server_message-Counts_example : Counts (
    handle_titan_server_message decode encode row_json doc_json
      (live (codes "feed:350"))
      2
      1000
      1001
      1002
      (some frame)
      registry
      board)
handle_titan_server_message-Counts_example =
    handle_titan_server_message-Counts decode encode row_json doc_json (codes "feed:350") 2 1000
      1001 1002 registry board (some frame) (λ row. (row.pair, refl))

build_size_board_doc_with_pair_lem_example :
    IsOrdered
      (build_size_board_doc_with_pair (put_pin board (pin_of quote 1000)) 1250 [] [] []).pins
    × (filter
          (is_of 2500000000)
          (build_size_board_doc_with_pair (put_pin board (pin_of quote 1000)) 1250 [] [] []).pins
        ≡ expected_lines (put_pin board (pin_of quote 1000)) 1250 2500000000)
unfolding init_hunt_sizes mark_unsubscribed put_pin pin_of insert
build_size_board_doc_with_pair_lem_example =
    build_size_board_doc_with_pair_lem (put_pin board (pin_of quote 1000)) 1250 2500000000 [] [] []
      (ground arith) (ground arith)

-- 250 ms after the quote.
aged_document :
    (build_size_board_doc_with_pair (put_pin board (pin_of quote 1000)) 1250 [] [] []).pins
    ≡ record {
      size_lamports = 1000000000;
      hop1_age_ms = 250;
      hop1_fresh_ms = 1000;
      provider = codes "fast";
      venue_label = codes "direct";
      route_in_amount = 1000000000;
      route_out_amount = 150000000;
      status = none;
    }
      ∷ record {
        size_lamports = 2500000000;
        hop1_age_ms = 0;
        hop1_fresh_ms = 0;
        provider = [];
        venue_label = [];
        route_in_amount = 0;
        route_out_amount = 0;
        status = some (codes "unsubscribed");
      }
      ∷ []
unfolding build_size_board_doc_with_pair init_hunt_sizes mark_unsubscribed put_pin pin_of insert
    remove lookup
aged_document = refl
