-- ===== src/Titan/Quote.antt =====
-- src/titan_quote.rs: a hop-1 quote out of the body of a `StreamData` message.
pub mod Size
use feed_mux.Prelude.{
  ℕ, ◌%◌, ◌^◌, List, [], ◌∷◌, ◌++◌, Bool, true, false, ◌&&◌, Option, none, some, ◌>>=◌,
  if◌then◌else◌, leb, Text, codes, text_eq, utf8_len, byte_prefix, unwrap_or,
}
use feed_mux.Config.{Base58Decode}
use feed_mux.Titan.Value.{
  Value, map_get, value_as_u64, value_as_u32, value_as_string, value_as_pubkey_base58,
}
use feed_mux.Titan.Registry.{TitanStreamRegistry, size_for_stream}
use feed_mux.Titan.Route.{Hop1Leg, select_best_route, extract_hop1_leg}

abbrev pub sol_mint : Text
sol_mint = codes "So11111111111111111111111111111111111111112"

abbrev pub usdc_mint : Text
usdc_mint = codes "EPjFWdd5AufqSSqeM2qN1xzybapC8G4wEGGkZwyTDt1v"

abbrev ellipsis : ℕ
ellipsis = 0x2026

-- None is the panic of `&mint[..4]` inside a character.
unfoldable pub short_mint : Text → Option Text
short_mint mint =
    if leb (utf8_len mint) 8
    then some mint
    else elim (byte_prefix 4 mint) [ none ↦ none | some p ↦ some (p ++ (ellipsis ∷ [])) ]

-- The pair, the base and the mid.
abbrev pub Labels : Type 0
Labels = Text × Text × Text

unfoldable pub mint_pair_label : Text → Text → Option Labels
unfolding short_mint
mint_pair_label input_mint output_mint =
    if text_eq input_mint sol_mint && text_eq output_mint usdc_mint
    then some (codes "SOL-USDC", codes "SOL", codes "USDC")
    else if text_eq input_mint usdc_mint && text_eq output_mint sol_mint
    then some (codes "USDC-SOL", codes "USDC", codes "SOL")
    else do
      base ← short_mint input_mint
      mid ← short_mint output_mint
      some (base ++ (b'-' ∷ []) ++ mid, base, mid)

pub record ParsedHop1Quote : Type 0 where
  pub pair : Text
  pub base : Text
  pub mid : Text
  pub size_lamports : ℕ
  pub provider : Text
  pub route_in_amount : ℕ
  pub route_out_amount : ℕ
  pub slippage_bps : ℕ
  pub quote_id : Option Text
  pub stream_id : ℕ
  pub stream_seq : ℕ
  pub hop1 : Hop1Leg

module _ (decode : Base58Decode) (encode : List ℕ → Text) where
  abbrev pub get_u64 : Value → Text → Option ℕ
  get_u64 v key = do found ← map_get v key; value_as_u64 found

  abbrev pub get_u32 : Value → Text → Option ℕ
  get_u32 v key = do found ← map_get v key; value_as_u32 found

  abbrev pub get_pubkey : Value → Text → Option Text
  get_pubkey v key = do found ← map_get v key; value_as_pubkey_base58 decode encode found

  abbrev pub get_string : Value → Text → Option Text
  get_string v key = do found ← map_get v key; value_as_string found

  -- `v as u16` keeps the low 16 bits.
  abbrev slippage_of : Option ℕ → ℕ
  slippage_of none = 0
  slippage_of (some v) = v % 2 ^ 16

  -- The answer is none where the message has no quote. The panic of `mint_pair_label` is none too,
  -- since the mints here are the outputs of the base-58 encoder, which are ASCII.
  unfoldable pub parse_stream_data_hop1 :
      Option Value → TitanStreamRegistry → Option ParsedHop1Quote
  unfolding map_get value_as_u64 value_as_u32 value_as_string value_as_pubkey_base58
      select_best_route size_for_stream mint_pair_label extract_hop1_leg
  parse_stream_data_hop1 none registry = none
  parse_stream_data_hop1 (some stream_data) registry = do
    stream_id ← get_u32 stream_data (codes "id")
    payload ← map_get stream_data (codes "payload")
    swap_quotes ← map_get payload (codes "SwapQuotes")
    input_mint ← get_pubkey swap_quotes (codes "inputMint")
    output_mint ← get_pubkey swap_quotes (codes "outputMint")
    quotes_map ← map_get swap_quotes (codes "quotes")
    best ← select_best_route quotes_map swap_quotes
    labels ← mint_pair_label input_mint output_mint
    hop1 ← extract_hop1_leg decode encode best.1
    route_out_amount ← get_u64 best.1 (codes "outAmount")
    some (
        let amount = unwrap_or (get_u64 swap_quotes (codes "amount")) 0 in
        record {
          pair = labels.0;
          base = labels.1;
          mid = labels.2;
          size_lamports = unwrap_or (size_for_stream registry stream_id) amount;
          provider = best.0;
          route_in_amount = unwrap_or (get_u64 best.1 (codes "inAmount")) amount;
          route_out_amount = route_out_amount;
          slippage_bps = slippage_of (get_u64 best.1 (codes "slippageBps"));
          quote_id = get_string swap_quotes (codes "id");
          stream_id = stream_id;
          stream_seq = unwrap_or (get_u32 stream_data (codes "seq")) 0;
          hop1 = hop1;
        })
