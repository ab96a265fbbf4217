-- ===== src/Titan/Value.antt =====
-- src/titan_quote.rs: the accessors of MessagePack values. `Value` has the constructors of
-- `rmpv::Value` that the source matches on, and `other` for the rest; a string that is not UTF-8 has
-- no text. `encode` and `decode` stand for the crate bs58.
use feed_mux.Prelude.{
  ℕ, List, [], ◌∷◌, Bool, false, Option, none, some, ◌>>=◌, if◌then◌else◌, ltb, ◌==◌, Text, text_eq,
  length, find?, any, ok, err, ℤ, pos,
}
use feed_mux.Prelude.Words.{trim, u32_limit}
use feed_mux.Config.{Base58Decode, Pubkey, parse_wallet_pubkey}

mutual
  pub data Value : Type 0 where
    integer : ℤ → Value
    string : Option Text → Value
    binary : List ℕ → Value
    array : Items → Value
    map_of : Entries → Value
    other : Value

  pub data Items : Type 0 where
    no_item : Items
    item : Value → Items → Items

  pub data Entries : Type 0 where
    no_entry : Entries
    entry : Value → Value → Entries → Entries

abbrev pub items_of : Items → List Value
items_of no_item = []
items_of (item v vs) = v ∷ items_of vs

abbrev pub entries_of : Entries → List (Value × Value)
entries_of no_entry = []
entries_of (entry k v es) = (k, v) ∷ entries_of es

unfoldable pub value_as_map : Value → Option (List (Value × Value))
value_as_map (map_of es) = some (entries_of es)
value_as_map _ = none

unfoldable pub value_as_array : Value → Option (List Value)
value_as_array (array vs) = some (items_of vs)
value_as_array _ = none

unfoldable pub value_as_string : Value → Option Text
value_as_string (string s) = s
value_as_string _ = none

unfoldable pub map_key_str : Value → Option Text
map_key_str (string s) = s
map_key_str _ = none

-- `map_key_str(k) == Some(key)`.
unfoldable pub key_matches : Text → Value × Value → Bool
unfolding map_key_str
key_matches key (k, v) = elim (map_key_str k) [ none ↦ false | some s ↦ text_eq s key ]

unfoldable pub map_get : Value → Text → Option Value
unfolding value_as_map key_matches
map_get value key = do
  entries ← value_as_map value
  found ← find? (key_matches key) entries
  some found.1

unfoldable pub map_contains_key : Value → Text → Bool
unfolding value_as_map key_matches
map_contains_key value key = elim (value_as_map value) [
  | none ↦ false
  | some entries ↦ any (key_matches key) entries
]

unfoldable pub value_as_u64 : Value → Option ℕ
value_as_u64 (integer (pos n)) = some n
value_as_u64 _ = none

unfoldable pub value_as_u32 : Value → Option ℕ
unfolding value_as_u64
value_as_u32 value = do v ← value_as_u64 value; if ltb v u32_limit then some v else none

-- The loop over the 32 items of an array, each of which must be a byte.
unfoldable pub bytes_of : List Value → Option (List ℕ)
unfolding value_as_u64
bytes_of [] = some []
bytes_of (v ∷ vs) = do
  b ← value_as_u64 v
  byte ← if ltb b 256 then some b else none
  rest ← bytes_of vs
  some (byte ∷ rest)

module _ (decode : Base58Decode) (encode : List ℕ → Text) where
  unfoldable pub pubkey_bytes : Value → Option Pubkey
  unfolding bytes_of
  pubkey_bytes (binary bytes) = if length bytes == 32 then some bytes else none
  pubkey_bytes (array vs) = if length (items_of vs) == 32 then bytes_of (items_of vs) else none
  pubkey_bytes (string s) = do
    text ← s
    elim (parse_wallet_pubkey decode (trim text)) [ ok pk ↦ some pk | err e ↦ none ]
  pubkey_bytes _ = none

  unfoldable pub value_as_pubkey_base58 : Value → Option Text
  unfolding pubkey_bytes
  value_as_pubkey_base58 value = do bytes ← pubkey_bytes value; some (encode bytes)
