-- ===== src/Titan/Route.antt =====
-- src/titan_quote.rs: the choice of a route among the providers' quotes, and its first leg.
pub mod Best
use feed_mux.Prelude.{
  ℕ, List, [], ◌∷◌, Bool, true, false, Option, none, some, ◌>>=◌, if◌then◌else◌, leb, Text, codes,
  is_empty, find?, unwrap_or,
}
use feed_mux.Config.{Base58Decode}
use feed_mux.Titan.Value.{
  Value, value_as_map, value_as_array, value_as_string, map_key_str, key_matches, map_get,
  value_as_u64, value_as_pubkey_base58,
}

pub record Candidate : Type 0 where
  pub provider : Text
  pub route : Value
  pub out : ℕ

-- The closure of `filter_map`: an entry needs a text key and an `outAmount`.
unfoldable pub candidate : Value × Value → Option Candidate
unfolding map_key_str map_get value_as_u64
candidate (k, route) = do
  provider ← map_key_str k
  amount ← map_get route (codes "outAmount")
  out ← value_as_u64 amount
  some (record { provider = provider; route = route; out = out })

unfoldable pub candidates : List (Value × Value) → List Candidate
unfolding candidate
candidates [] = []
candidates (e ∷ es) = elim (candidate e) [ none ↦ candidates es | some c ↦ c ∷ candidates es ]

-- `max_by_key` keeps the later of two equal ones.
abbrev pub larger : Candidate → Candidate → Candidate
larger best c = if leb best.out c.out then c else best

unfoldable pub max_from : Candidate → List Candidate → Candidate
max_from best [] = best
max_from best (c ∷ cs) = max_from (larger best c) cs

unfoldable pub max_by_out : List Candidate → Option Candidate
unfolding max_from
max_by_out [] = none
max_by_out (c ∷ cs) = some (max_from c cs)

-- The provider that the metadata expects to win, where the quotes have one of its name.
unfoldable pub expected_winner : List (Value × Value) → Value → Option (Text × Value)
unfolding map_get value_as_string key_matches
expected_winner entries swap_quotes = do
  metadata ← map_get swap_quotes (codes "metadata")
  expected ← map_get metadata (codes "ExpectedWinner")
  winner ← value_as_string expected
  found ← find? (key_matches winner) entries
  some (winner, found.1)

abbrev pub chosen : Candidate → Text × Value
chosen c = (c.provider, c.route)

unfoldable pub select_best_route : Value → Value → Option (Text × Value)
unfolding value_as_map expected_winner candidates max_by_out
select_best_route quotes_map swap_quotes = elim (value_as_map quotes_map) [
  | none ↦ none
  | some entries ↦ if is_empty entries then none else elim (expected_winner entries swap_quotes) [
    | some pair ↦ some pair
    | none ↦ elim (max_by_out (candidates entries)) [ none ↦ none | some c ↦ some (chosen c) ]
  ]
]

pub record Hop1Leg : Type 0 where
  pub label : Text
  pub amm_key : Text
  pub input_mint : Text
  pub output_mint : Text
  pub in_amount : ℕ
  pub out_amount : ℕ
  pub context_slot : Option ℕ

module _ (decode : Base58Decode) (encode : List ℕ → Text) where
  abbrev field_pubkey : Value → Text → Option Text
  field_pubkey v key = do found ← map_get v key; value_as_pubkey_base58 decode encode found

  abbrev pub field_u64 : Value → Text → Option ℕ
  field_u64 v key = do found ← map_get v key; value_as_u64 found

  abbrev pub field_string : Value → Text → Option Text
  field_string v key = do found ← map_get v key; value_as_string found

  unfoldable pub leg_of_step : Value → Hop1Leg
  unfolding map_get value_as_string value_as_u64 value_as_pubkey_base58
  leg_of_step first = record {
    label = unwrap_or (field_string first (codes "label")) (codes "unknown");
    amm_key = unwrap_or (field_pubkey first (codes "ammKey")) [];
    input_mint = unwrap_or (field_pubkey first (codes "inputMint")) [];
    output_mint = unwrap_or (field_pubkey first (codes "outputMint")) [];
    in_amount = unwrap_or (field_u64 first (codes "inAmount")) 0;
    out_amount = unwrap_or (field_u64 first (codes "outAmount")) 0;
    context_slot = field_u64 first (codes "contextSlot");
  }

  unfoldable pub direct_leg : Value → Hop1Leg
  unfolding map_get value_as_u64
  direct_leg route = record {
    label = codes "direct";
    amm_key = [];
    input_mint = [];
    output_mint = [];
    in_amount = unwrap_or (field_u64 route (codes "inAmount")) 0;
    out_amount = unwrap_or (field_u64 route (codes "outAmount")) 0;
    context_slot = field_u64 route (codes "contextSlot");
  }

  -- The value of `map_get(route, "steps").and_then(value_as_array)`.
  abbrev steps_of : Value → Option (List Value)
  steps_of route = do steps ← map_get route (codes "steps"); value_as_array steps

  unfoldable pub extract_hop1_leg : Value → Option Hop1Leg
  unfolding map_get value_as_array leg_of_step direct_leg
  extract_hop1_leg route = elim (steps_of route) [
    | none ↦ some (direct_leg route)
    | some [] ↦ some (direct_leg route)
    | some (first ∷ rest) ↦ some (leg_of_step first)
  ]
