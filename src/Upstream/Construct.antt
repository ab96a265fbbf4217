-- ===== src/Upstream/Construct.antt =====
-- The constructors of the upstreams: `new` of src/upstream/titan.rs, triton.rs, triton_shred.rs,
-- helius.rs and chainstack.rs with the lines that they log, and `from_config` of src/upstream/mod.rs.
-- The flags that tasks share are booleans, and an `Arc` is its content.
pub mod Refused
pub mod Logged
use feed_mux.Prelude.{
  ℕ, List, [], ◌∷◌, ◌++◌, Bool, true, false, ◌&&◌, not, Option, none, some, if◌then◌else◌, Text,
  codes, is_some,
}
use feed_mux.Config.{Config, Base58Decode, Pubkey}
use feed_mux.Titan.Sizes.{parse_hunt_sizes}
use feed_mux.Service.RateLimit.{Governor, UpstreamRateLimiter, new_limiter}
use feed_mux.Upstream.Live.{
  TitanLiveState, TritonLiveState, ShredLiveState, missing_ws_url, missing_wallet_pubkey,
  invalid_wallet_pubkey, missing_grpc_url, missing_vaults, keep_port_conflict, invalid_bind,
  resolve_titan, resolve_triton, resolve_shred, wallet_pubkey_bytes, blank,
}
use feed_mux.Upstream.Lines.{LogLine, error_line, titan_lines, triton_lines, shred_lines}
use feed_mux.Upstream.TritonShred.{ShredStats, new_stats}

pub record TitanWsUpstream (governor : Governor) : Type 0 where
  pub enabled : Bool
  pub dry_run : Bool
  pub ws_url : Option Text
  pub wallet_pubkey : Option Text
  pub wallet_bytes : Option Pubkey
  pub live_state : TitanLiveState
  pub rate_limit_rps : ℕ
  pub rate_limiter : UpstreamRateLimiter governor
  pub connected : Bool
  pub hunt_sizes : List ℕ
  pub hop1_ttl_secs : ℕ

pub record TritonGrpcUpstream (governor : Governor) : Type 0 where
  pub enabled : Bool
  pub dry_run : Bool
  pub grpc_url : Option Text
  pub grpc_token : Option Text
  pub rate_limit_rps : ℕ
  pub rate_limiter : UpstreamRateLimiter governor
  pub live_state : TritonLiveState
  pub connected : Bool
  pub auth_blocked : Bool

pub record TritonShredUpstream : Type 0 where
  pub enabled : Bool
  pub dry_run : Bool
  pub bind_addr : Text
  pub live_state : ShredLiveState
  pub stats : ShredStats

pub record HeliusUpstream : Type 0 where
  pub enabled : Bool
  pub dry_run : Bool
  pub rpc_url : Option Text

pub record ChainstackUpstream : Type 0 where
  pub enabled : Bool
  pub dry_run : Bool
  pub rpc_url : Option Text
  pub ws_url : Option Text

-- The lines of an upstream are logged where it is enabled and no dry run is on.
abbrev pub in_live_mode : Bool → Config → List LogLine → List LogLine
in_live_mode enabled config lines = if enabled && not config.dry_run then lines else []

module _ (governor : Governor) (decode : Base58Decode) (port : Text → Option ℕ)
    (config : Config) where
  unfoldable pub new_titan : TitanWsUpstream governor × List LogLine
  unfolding resolve_titan wallet_pubkey_bytes parse_hunt_sizes titan_lines new_limiter
  new_titan =
      let live_state = resolve_titan decode config in
      (
        record {
          enabled = config.enable_titan_ws;
          dry_run = config.dry_run;
          ws_url = config.titan_ws_url;
          wallet_pubkey = config.titan_wallet_pubkey;
          wallet_bytes = wallet_pubkey_bytes decode config;
          live_state = live_state;
          rate_limit_rps = config.titan_rate_limit_rps;
          rate_limiter = new_limiter governor (codes "titan_ws") config.titan_rate_limit_rps;
          connected = false;
          hunt_sizes = parse_hunt_sizes config.titan_hunt_size_lamports;
          hop1_ttl_secs = config.titan_hop1_ttl_secs;
        },
        in_live_mode config.enable_titan_ws config (titan_lines live_state),
      )

  unfoldable pub new_triton : TritonGrpcUpstream governor × List LogLine
  unfolding resolve_triton triton_lines new_limiter
  new_triton =
      let live_state = resolve_triton config in
      (
        record {
          enabled = config.enable_triton_grpc;
          dry_run = config.dry_run;
          grpc_url = config.triton_grpc_url;
          grpc_token = config.triton_grpc_token;
          rate_limit_rps = config.triton_rate_limit_rps;
          rate_limiter = new_limiter governor (codes "triton_grpc") config.triton_rate_limit_rps;
          live_state = live_state;
          connected = false;
          auth_blocked = false;
        },
        in_live_mode config.enable_triton_grpc config
            (triton_lines config.triton_grpc_token live_state),
      )

  unfoldable pub new_shred : TritonShredUpstream × List LogLine
  unfolding resolve_shred shred_lines new_stats
  new_shred =
      let live_state = resolve_shred port config in
      (
        record {
          enabled = config.enable_triton_shred;
          dry_run = config.dry_run;
          bind_addr = config.shred_bind;
          live_state = live_state;
          stats = new_stats;
        },
        in_live_mode config.enable_triton_shred config (shred_lines live_state),
      )

  unfoldable pub new_helius : HeliusUpstream × List LogLine
  new_helius = (
    record {
      enabled = config.enable_helius;
      dry_run = config.dry_run;
      rpc_url = config.helius_rpc_url;
    },
    if config.enable_helius && not config.dry_run && not (is_some config.helius_rpc_url)
        then record {
          severity = error_line;
          upstream = codes "helius";
          message =
              codes "Helius backup enabled but HELIUS_RPC_URL is not set; refusing to connect";
        }
          ∷ []
        else [],
  )

  unfoldable pub new_chainstack : ChainstackUpstream × List LogLine
  new_chainstack = (
    record {
      enabled = config.enable_chainstack;
      dry_run = config.dry_run;
      rpc_url = config.chainstack_rpc_url;
      ws_url = config.chainstack_ws_url;
    },
    [],
  )

pub record UpstreamHub (governor : Governor) : Type 0 where
  pub chainstack : ChainstackUpstream
  pub helius : HeliusUpstream
  pub triton : TritonGrpcUpstream governor
  pub triton_shred : TritonShredUpstream
  pub titan : TitanWsUpstream governor

module _ (governor : Governor) (decode : Base58Decode) (port : Text → Option ℕ) where
  -- The hub, and the lines of its constructors in their order.
  unfoldable pub from_config : Config → UpstreamHub governor × List LogLine
  unfolding new_titan new_triton new_shred new_helius new_chainstack
  from_config config =
      let (chainstack, lines1) = new_chainstack governor decode port config in
      let (helius, lines2) = new_helius governor decode port config in
      let (triton, lines3) = new_triton governor decode port config in
      let (triton_shred, lines4) = new_shred governor decode port config in
      let (titan, lines5) = new_titan governor decode port config in
      (
        record {
          chainstack = chainstack;
          helius = helius;
          triton = triton;
          triton_shred = triton_shred;
          titan = titan;
        },
        lines1 ++ lines2 ++ lines3 ++ lines4 ++ lines5,
      )
