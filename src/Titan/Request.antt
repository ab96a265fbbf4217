-- ===== src/Titan/Request.antt =====
-- src/upstream/titan.rs: the requests to Titan's server, as they are handed to the encoder of
-- rmp_serde. The two mints are the keys that the constants of src/titan_quote.rs spell in base 58.
use feed_mux.Prelude.{ℕ, [], ◌∷◌, Option, some}
use feed_mux.Config.{Pubkey}

pub record SwapParams : Type 0 where
  pub input_mint : Pubkey
  pub output_mint : Pubkey
  pub amount : ℕ
  pub slippage_bps : Option ℕ

pub record TransactionParams : Type 0 where
  pub user_public_key : Pubkey

pub record NewSwapQuoteStreamRequest : Type 0 where
  pub swap : SwapParams
  pub transaction : TransactionParams

pub data ClientRequestData : Type 0 where
  get_info : ClientRequestData
  new_swap_quote_stream : NewSwapQuoteStreamRequest → ClientRequestData

pub record ClientRequest : Type 0 where
  pub id : ℕ
  pub body : ClientRequestData

-- `SOL_MINT`
abbrev pub sol_mint_key : Pubkey
sol_mint_key =
    6 ∷ 155 ∷ 136 ∷ 87 ∷ 254 ∷ 171 ∷ 129 ∷ 132 ∷ 251 ∷ 104 ∷ 127 ∷ 99 ∷ 70 ∷ 24 ∷ 192 ∷ 53 ∷ 218
    ∷ 196 ∷ 57 ∷ 220 ∷ 26 ∷ 235 ∷ 59 ∷ 85 ∷ 152 ∷ 160 ∷ 240 ∷ 0 ∷ 0 ∷ 0 ∷ 0 ∷ 1 ∷ []

-- `USDC_MINT`
abbrev pub usdc_mint_key : Pubkey
usdc_mint_key =
    198 ∷ 250 ∷ 122 ∷ 243 ∷ 190 ∷ 219 ∷ 173 ∷ 58 ∷ 61 ∷ 101 ∷ 243 ∷ 106 ∷ 171 ∷ 201 ∷ 116 ∷ 49 ∷ 177
    ∷ 187 ∷ 228 ∷ 194 ∷ 210 ∷ 246 ∷ 224 ∷ 228 ∷ 124 ∷ 166 ∷ 2 ∷ 3 ∷ 69 ∷ 47 ∷ 93 ∷ 97 ∷ []

-- The request for the quotes of one hunt size.
unfoldable pub quote_stream_request : Pubkey → ℕ → ClientRequestData
quote_stream_request wallet_pubkey amount = new_swap_quote_stream (record {
  swap = record {
    input_mint = sol_mint_key;
    output_mint = usdc_mint_key;
    amount = amount;
    slippage_bps = some 50;
  };
  transaction = record { user_public_key = wallet_pubkey };
})
