-- ===== src/Upstream/Live.antt =====
-- The live states of the upstreams and what they report: `resolve_live_state` and `status` of
-- src/upstream/titan.rs, triton.rs, triton_shred.rs, helius.rs and chainstack.rs, and `statuses` of
-- src/upstream/mod.rs. `port` stands for the parser of socket addresses: the port of an address.
pub mod Ready
use feed_mux.Prelude.{
  ℕ, List, [], ◌∷◌, Bool, true, false, ◌&&◌, not, Option, none, some, if◌then◌else◌, Text, codes,
  is_empty, is_some, ◌==◌, Result, ok, err,
}
use feed_mux.Prelude.Words.{trim}
use feed_mux.Config.{Config, Base58Decode, Pubkey, parse_wallet_pubkey}

pub data TitanLiveState : Type 0 where
  disabled dry_run_stub missing_ws_url missing_wallet_pubkey invalid_wallet_pubkey ready :
      TitanLiveState

pub data TritonLiveState : Type 0 where
  disabled dry_run_stub missing_grpc_url ready : TritonLiveState

pub data ShredLiveState : Type 0 where
  disabled dry_run_stub missing_vaults keep_port_conflict invalid_bind ready : ShredLiveState

unfoldable pub resolve_titan : Base58Decode → Config → TitanLiveState
resolve_titan decode config =
    if not config.enable_titan_ws
    then TitanLiveState.disabled
    else if config.dry_run
    then TitanLiveState.dry_run_stub
    else if not (is_some config.titan_ws_url)
    then missing_ws_url
    else elim (config.titan_wallet_pubkey) [
      | none ↦ missing_wallet_pubkey
      | some value ↦
          if is_empty (trim value)
          then missing_wallet_pubkey
          else elim (parse_wallet_pubkey decode value) [
            | ok pk ↦ TitanLiveState.ready
            | err e ↦ invalid_wallet_pubkey
          ]
    ]

-- The bytes that the constructor of the upstream keeps.
unfoldable pub wallet_pubkey_bytes : Base58Decode → Config → Option Pubkey
wallet_pubkey_bytes decode config = elim (config.titan_wallet_pubkey) [
  | none ↦ none
  | some value ↦ elim (parse_wallet_pubkey decode value) [ ok pk ↦ some pk | err e ↦ none ]
]

abbrev pub blank : Option Text → Bool
blank none = true
blank (some s) = is_empty (trim s)

unfoldable pub resolve_triton : Config → TritonLiveState
resolve_triton config =
    if not config.enable_triton_grpc
    then TritonLiveState.disabled
    else if config.dry_run
    then TritonLiveState.dry_run_stub
    else if blank config.triton_grpc_url
    then missing_grpc_url
    else TritonLiveState.ready

abbrev pub keep_shred_port : ℕ
keep_shred_port = 8002

unfoldable pub shred_bind_conflicts_with_keep : (Text → Option ℕ) → Text → Bool
shred_bind_conflicts_with_keep port bind = elim (port bind) [
  | none ↦ false
  | some p ↦ p == keep_shred_port
]

unfoldable pub resolve_shred : (Text → Option ℕ) → Config → ShredLiveState
unfolding shred_bind_conflicts_with_keep
resolve_shred port config =
    if not config.enable_triton_shred
    then ShredLiveState.disabled
    else if config.dry_run
    then ShredLiveState.dry_run_stub
    else if is_empty config.shred_watch_vaults
    then missing_vaults
    else if shred_bind_conflicts_with_keep port config.shred_bind
    then keep_port_conflict
    else if not (is_some (port config.shred_bind))
    then invalid_bind
    else ShredLiveState.ready

pub record UpstreamStatus : Type 0 where
  pub name : Text
  pub enabled : Bool
  pub connected : Bool
  pub mode : Text
  pub rate_limit_rps : Option ℕ

abbrev live_mode : Bool → Text → Text → Bool × Text
live_mode connected up waiting = (connected, if connected then up else waiting)

unfoldable pub titan_mode : TitanLiveState → Bool → Bool × Text
titan_mode TitanLiveState.disabled connected = (false, codes "disabled")
titan_mode TitanLiveState.dry_run_stub connected = (false, codes "stub/dry-run")
titan_mode missing_ws_url connected = (false, codes "error/missing-ws-url")
titan_mode missing_wallet_pubkey connected = (false, codes "error/wallet-pubkey-required")
titan_mode invalid_wallet_pubkey connected = (false, codes "error/wallet-pubkey-required")
titan_mode TitanLiveState.ready connected =
    live_mode connected (codes "live/ws") (codes "live/connecting")

unfoldable pub titan_status : Base58Decode → Config → Bool → UpstreamStatus
unfolding resolve_titan titan_mode
titan_status decode config connected =
    let (up, mode) = titan_mode (resolve_titan decode config) connected in
    record {
      name = codes "titan_ws";
      enabled = config.enable_titan_ws;
      connected = up;
      mode = mode;
      rate_limit_rps = some config.titan_rate_limit_rps;
    }

unfoldable pub triton_mode : TritonLiveState → Bool → Bool × Text
triton_mode TritonLiveState.disabled connected = (false, codes "disabled")
triton_mode TritonLiveState.dry_run_stub connected = (false, codes "stub/dry-run")
triton_mode missing_grpc_url connected = (false, codes "error/missing-grpc-url")
triton_mode TritonLiveState.ready connected =
    live_mode connected (codes "live/grpc") (codes "live/connecting")

unfoldable pub triton_status : Config → Bool → Bool → UpstreamStatus
unfolding resolve_triton triton_mode
triton_status config auth_blocked connected =
    let (up, mode) =
      if auth_blocked
      then (false, codes "error/auth-denied")
      else triton_mode (resolve_triton config) connected in
    record {
      name = codes "triton_grpc";
      enabled = config.enable_triton_grpc;
      connected = up;
      mode = mode;
      rate_limit_rps = some config.triton_rate_limit_rps;
    }

unfoldable pub shred_mode : ShredLiveState → Bool → Bool × Text
shred_mode ShredLiveState.disabled bound = (false, codes "disabled")
shred_mode ShredLiveState.dry_run_stub bound = (false, codes "stub/dry-run")
shred_mode missing_vaults bound = (false, codes "error/missing-vaults")
shred_mode keep_port_conflict bound = (false, codes "error/keep-port-8002-conflict")
shred_mode invalid_bind bound = (false, codes "error/invalid-bind")
shred_mode ShredLiveState.ready bound = live_mode bound (codes "live/udp") (codes "live/binding")

unfoldable pub shred_status : (Text → Option ℕ) → Config → Bool → UpstreamStatus
unfolding resolve_shred shred_mode
shred_status port config bound =
    let (up, mode) = shred_mode (resolve_shred port config) bound in
    record {
      name = codes "triton_shred_udp";
      enabled = config.enable_triton_shred;
      connected = up;
      mode = mode;
      rate_limit_rps = none;
    }

unfoldable pub helius_status : Config → UpstreamStatus
helius_status config = record {
  name = codes "helius";
  enabled = config.enable_helius;
  connected = config.enable_helius && not config.dry_run && is_some config.helius_rpc_url;
  mode =
      if config.dry_run
      then codes "stub/dry-run"
      else if not (is_some config.helius_rpc_url)
      then codes "error/missing-rpc-url"
      else codes "live/backup";
  rate_limit_rps = none;
}

unfoldable pub chainstack_status : Config → UpstreamStatus
chainstack_status config = record {
  name = codes "chainstack";
  enabled = config.enable_chainstack;
  connected = config.enable_chainstack && not config.dry_run && is_some config.chainstack_rpc_url;
  mode = if config.dry_run then codes "stub/dry-run" else codes "stub/live";
  rate_limit_rps = none;
}

-- The flags that the tasks of the upstreams set.
pub record Flags : Type 0 where
  pub titan_connected : Bool
  pub triton_connected : Bool
  pub triton_auth_blocked : Bool
  pub shred_bound : Bool

unfoldable pub statuses : Base58Decode → (Text → Option ℕ) → Config → Flags → List UpstreamStatus
unfolding titan_status triton_status shred_status helius_status chainstack_status
statuses decode port config flags =
    chainstack_status config
    ∷ helius_status config
    ∷ triton_status config flags.triton_auth_blocked flags.triton_connected
    ∷ shred_status port config flags.shred_bound
    ∷ titan_status decode config flags.titan_connected
    ∷ []
