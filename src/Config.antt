-- ===== src/Config.antt =====
-- src/config.rs: the configuration from the environment, and its redacted summary. The environment
-- is a function from names to values. `base58` stands for `bs58::decode`.
pub mod Secrets
mod Tests
use feed_mux.Prelude.{
  ℕ, ◌+◌, ◌^◌, List, [], ◌∷◌, ◌++◌, map, Bool, true, false, ◌&&◌, ◌||◌, not, Option, none, some,
  if◌then◌else◌, leb, ◌==◌, Text, codes, text_eq, length, is_empty, unwrap_or, Result, ok, err,
}
use feed_mux.Prelude.Decimal.{to_string}
use feed_mux.Prelude.Words.{trim, split, parse_unsigned, u64_limit, u32_limit}

abbrev pub Pubkey : Type 0
Pubkey = List ℕ

pub record Config : Type 0 where
  pub bind_addr : Text
  pub dry_run : Bool
  pub redis_url : Option Text
  pub redis_channel : Text
  pub enable_chainstack : Bool
  pub chainstack_rpc_url : Option Text
  pub chainstack_ws_url : Option Text
  pub enable_helius : Bool
  pub helius_rpc_url : Option Text
  pub enable_triton_grpc : Bool
  pub triton_grpc_url : Option Text
  pub triton_grpc_token : Option Text
  pub triton_rate_limit_rps : ℕ
  pub triton_local_bind : Text
  pub enable_titan_ws : Bool
  pub titan_ws_url : Option Text
  pub titan_wallet_pubkey : Option Text
  pub titan_rate_limit_rps : ℕ
  pub titan_local_bind : Text
  pub titan_hunt_size_lamports : Option Text
  pub titan_hop1_ttl_secs : ℕ
  pub enable_triton_shred : Bool
  pub shred_bind : Text
  pub shred_watch_vaults : List Pubkey
  pub shred_hit_ttl_secs : ℕ
  pub shred_udp_prefix_skip : ℕ
  pub mock_publish_interval_secs : ℕ

pub data PubkeyError : Type 0 where
  pubkey_is_empty : PubkeyError
  invalid_base58 : PubkeyError
  wrong_length : ℕ → PubkeyError

abbrev pub Base58Decode : Type 0
Base58Decode = Text → Option (List ℕ)

unfoldable pub parse_wallet_pubkey : Base58Decode → Text → Result PubkeyError Pubkey
parse_wallet_pubkey base58 value =
    if is_empty (trim value) then err pubkey_is_empty else elim (base58 (trim value)) [
      | none ↦ err invalid_base58
      | some decoded ↦
          if not (length decoded == 32) then err (wrong_length (length decoded)) else ok decoded
    ]

-- `env::var(key).ok()` for every key.
abbrev pub Env : Type 0
Env = Text → Option Text

unfoldable pub env_or : Env → Text → Text → Text
env_or env key fallback = unwrap_or (env key) fallback

unfoldable pub env_optional : Env → Text → Option Text
env_optional env key = elim (env key) [
  | none ↦ none
  | some s ↦ if is_empty (trim s) then none else some s
]

-- The letters of the four accepted words are lower cases of ASCII letters only, so the ASCII part of
-- `to_lowercase` decides the match.
abbrev lower : ℕ → ℕ
lower c = if leb b'A' c && leb c b'Z' then c + 32 else c

unfoldable pub env_bool : Env → Text → Bool → Bool
env_bool env key fallback = elim (env key) [
  | none ↦ fallback
  | some v ↦
      let w = map lower v in
      text_eq w (codes "1")
      || text_eq w (codes "true")
      || text_eq w (codes "yes")
      || text_eq w (codes "on")
]

abbrev env_unsigned : ℕ → Env → Text → ℕ → ℕ
env_unsigned limit env key fallback = elim (env key) [
  | none ↦ fallback
  | some v ↦ unwrap_or (parse_unsigned limit v) fallback
]

unfoldable pub env_u32 : Env → Text → ℕ → ℕ
env_u32 = env_unsigned u32_limit

unfoldable pub env_u64 : Env → Text → ℕ → ℕ
env_u64 = env_unsigned u64_limit

-- `usize` has 64 bits.
unfoldable pub env_usize : Env → Text → ℕ → ℕ
env_usize = env_unsigned u64_limit

abbrev pub vaults_of : Base58Decode → List Text → List Pubkey
vaults_of base58 [] = []
vaults_of base58 (part ∷ parts) =
    let rest = vaults_of base58 parts in
    if is_empty (trim part)
    then rest
    else elim (parse_wallet_pubkey base58 (trim part)) [ ok pk ↦ pk ∷ rest | err e ↦ rest ]

unfoldable pub parse_shred_watch_vaults_from_env : Base58Decode → Env → List Pubkey
unfolding parse_wallet_pubkey
parse_shred_watch_vaults_from_env base58 env = elim (env (codes "SHRED_WATCH_VAULTS")) [
  | none ↦ []
  | some raw ↦ if is_empty (trim raw) then [] else vaults_of base58 (split b',' raw)
]

unfoldable pub from_env : Base58Decode → Env → Config
from_env base58 env = record {
  bind_addr = env_or env (codes "BIND_ADDR") (codes "127.0.0.1:8787");
  dry_run = env_bool env (codes "DRY_RUN") true;
  redis_url = elim (env (codes "REDIS_URL")) [
    | none ↦ none
    | some s ↦ if is_empty s then none else some s
  ];
  redis_channel = env_or env (codes "REDIS_CHANNEL") (codes "feed:350");
  enable_chainstack = env_bool env (codes "ENABLE_CHAINSTACK") false;
  chainstack_rpc_url = env_optional env (codes "CHAINSTACK_RPC_URL");
  chainstack_ws_url = env_optional env (codes "CHAINSTACK_WS_URL");
  enable_helius = env_bool env (codes "ENABLE_HELIUS") false;
  helius_rpc_url = env_optional env (codes "HELIUS_RPC_URL");
  enable_triton_grpc = env_bool env (codes "ENABLE_TRITON_GRPC") false;
  triton_grpc_url = env_optional env (codes "TRITON_GRPC_URL");
  triton_grpc_token = env_optional env (codes "TRITON_GRPC_TOKEN");
  triton_rate_limit_rps = env_u32 env (codes "TRITON_RATE_LIMIT_RPS") 25;
  triton_local_bind = env_or env (codes "TRITON_LOCAL_BIND") (codes "127.0.0.1:19000");
  enable_titan_ws = env_bool env (codes "ENABLE_TITAN_WS") false;
  titan_ws_url = env_optional env (codes "TITAN_WS_URL");
  titan_wallet_pubkey = env_optional env (codes "TITAN_WALLET_PUBKEY");
  titan_rate_limit_rps = env_u32 env (codes "TITAN_RATE_LIMIT_RPS") 15;
  titan_local_bind = env_or env (codes "TITAN_LOCAL_BIND") (codes "127.0.0.1:19001");
  titan_hunt_size_lamports = env_optional env (codes "TITAN_HUNT_SIZE_LAMPORTS");
  titan_hop1_ttl_secs = env_u64 env (codes "TITAN_HOP1_TTL_SECS") 2;
  enable_triton_shred = env_bool env (codes "ENABLE_TRITON_SHRED") false;
  shred_bind = env_or env (codes "SHRED_BIND") (codes "0.0.0.0:8003");
  shred_watch_vaults = parse_shred_watch_vaults_from_env base58 env;
  shred_hit_ttl_secs = env_u64 env (codes "SHRED_HIT_TTL_SECS") 2;
  shred_udp_prefix_skip = env_usize env (codes "SHRED_UDP_PREFIX_SKIP") 0;
  mock_publish_interval_secs = env_u64 env (codes "MOCK_PUBLISH_INTERVAL_SECS") 30;
}

abbrev show_bool : Bool → Text
show_bool true = codes "true"
show_bool false = codes "false"

abbrev presence : Option Text → Text
presence none = codes "<none>"
presence (some s) = codes "<set>"

unfoldable pub redacted_summary : Config → Text
redacted_summary c =
    codes "bind="
    ++ c.bind_addr
    ++ codes " dry_run="
    ++ show_bool c.dry_run
    ++ codes " redis="
    ++ presence c.redis_url
    ++ codes " channel="
    ++ c.redis_channel
    ++ codes " chainstack="
    ++ show_bool c.enable_chainstack
    ++ codes " helius="
    ++ show_bool c.enable_helius
    ++ codes " triton_grpc="
    ++ show_bool c.enable_triton_grpc
    ++ codes " triton_shred="
    ++ show_bool c.enable_triton_shred
    ++ codes " shred_bind="
    ++ c.shred_bind
    ++ codes " shred_vaults="
    ++ to_string (length c.shred_watch_vaults)
    ++ codes " titan_ws="
    ++ show_bool c.enable_titan_ws
    ++ codes " titan_wallet="
    ++ presence c.titan_wallet_pubkey
    ++ codes " titan_local="
    ++ c.titan_local_bind
    ++ codes " triton_local="
    ++ c.triton_local_bind
    ++ codes " triton_token="
    ++ presence c.triton_grpc_token
    ++ codes " triton_rps="
    ++ to_string c.triton_rate_limit_rps
    ++ codes " titan_rps="
    ++ to_string c.titan_rate_limit_rps
