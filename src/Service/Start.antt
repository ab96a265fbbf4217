-- ===== src/Service/Start.antt =====
-- src/lib.rs: `run`, with `spawn_live` of src/upstream/mod.rs and the methods of the upstreams and of
-- the relays that it calls. Spawning adds a task to a list; `none` is the panic of an `expect`.
pub mod Tasks
pub mod Ready
pub mod Shape
pub mod DryRun
pub mod Ownership
pub mod Refusals
pub mod Settled
pub mod Accounts
mod Tests
use feed_mux.Prelude.{
  ℕ, List, [], ◌∷◌, ◌++◌, Bool, true, false, Option, none, some, if◌then◌else◌, Text, is_empty,
  ◌==◌, codes,
}
use feed_mux.Config.{Config, Base58Decode, Pubkey}
use feed_mux.Fanout.{Command, RedisFanout, connect, reset_titan_state_at_boot}
use feed_mux.Shred.VaultWatch.{VaultWatchSet, from_pubkeys}
use feed_mux.Titan.Sizes.{parse_hunt_sizes}
use feed_mux.Upstream.Live.{
  TitanLiveState, TritonLiveState, ShredLiveState, resolve_titan, resolve_triton, resolve_shred,
  wallet_pubkey_bytes,
}
use feed_mux.Service.Hub.{is_titan_ready, is_triton_ready}

-- What a task is spawned with. The relays and the limiters are the same for all.
pub data Task : Type 0 where
  titan_server : (bind : Text) → Task
  triton_server : (bind : Text) → Task
  mock_publisher : (interval_secs : ℕ) → Task
  titan_live : (ws_url : Text) (wallet : Pubkey) (hunt_sizes : List ℕ) (hop1_ttl_secs : ℕ) → Task
  triton_live : (grpc_url : Text) (grpc_token : Option Text) → Task
  shred_live : (bind : Text) (vaults : VaultWatchSet) (hit_ttl_secs udp_prefix_skip : ℕ) → Task
  heartbeats polls : Task
  http_server : (bind : Text) → Task

abbrev pub is_shred_ready : ShredLiveState → Bool
is_shred_ready ShredLiveState.ready = true
is_shred_ready _ = false

-- `commands` are sent before the live tasks start.
pub record Started : Type 0 where
  pub fanout : RedisFanout
  pub commands : List Command
  pub tasks : List Task

-- `spawn_server` of the two relays.
unfoldable pub spawn_titan_server : Config → List Task
spawn_titan_server config =
    if config.enable_titan_ws then titan_server config.titan_local_bind ∷ [] else []

unfoldable pub spawn_triton_server : Config → List Task
spawn_triton_server config =
    if config.enable_triton_grpc then triton_server config.triton_local_bind ∷ [] else []

unfoldable pub spawn_mock_publisher : Config → List Task
spawn_mock_publisher config =
    if config.mock_publish_interval_secs == 0
    then []
    else mock_publisher config.mock_publish_interval_secs ∷ []

unfoldable pub spawn_triton : Config → Option (List Task)
unfolding resolve_triton
spawn_triton config =
    if is_triton_ready (resolve_triton config)
    then (elim (config.triton_grpc_url) [
      | none ↦ none
      | some url ↦ some (triton_live url config.triton_grpc_token ∷ [])
    ])
    else some []

abbrev pub both : Option (List Task) → Option (List Task) → Option (List Task)
both (some ts) (some us) = some (ts ++ us)
both _ _ = none

module _ (decode : Base58Decode) (encode : List ℕ → Text) (port : Text → Option ℕ) where
  unfoldable pub spawn_shred : Config → List Task
  unfolding resolve_shred from_pubkeys
  spawn_shred config =
      if is_empty config.shred_watch_vaults
      then []
      else if is_shred_ready (resolve_shred port config)
      then shred_live config.shred_bind (from_pubkeys encode config.shred_watch_vaults)
          config.shred_hit_ttl_secs config.shred_udp_prefix_skip
        ∷ []
      else []

  unfoldable pub spawn_titan : Config → Option (List Task)
  unfolding resolve_titan wallet_pubkey_bytes parse_hunt_sizes
  spawn_titan config =
      if is_titan_ready (resolve_titan decode config)
      then (elim (config.titan_ws_url) [
        | none ↦ none
        | some url ↦ elim (wallet_pubkey_bytes decode config) [
          | none ↦ none
          | some wallet ↦ some (
              titan_live url wallet (parse_hunt_sizes config.titan_hunt_size_lamports)
                config.titan_hop1_ttl_secs
              ∷ [])
        ]
      ])
      else some []

  unfoldable pub spawn_live : Config → Option (List Task)
  unfolding spawn_triton spawn_shred spawn_titan
  spawn_live config =
      both (both (spawn_triton config) (some (spawn_shred config))) (spawn_titan config)

  -- The tasks of the two modes.
  unfoldable pub spawn_feeds : Config → Option (List Task)
  unfolding spawn_mock_publisher spawn_live
  spawn_feeds config =
      if config.dry_run
      then some (spawn_mock_publisher config)
      else both (spawn_live config) (some (heartbeats ∷ []))

-- `opens` and `connects` are those of the fan-out's `connect`, `binds` whether the address of the HTTP
-- server can be bound.
module _ (opens connects binds : Text → Bool) (config : Config) where
  abbrev pub fanout_of : RedisFanout
  fanout_of = connect opens connects config.redis_url config.redis_channel config.dry_run

  -- All that is started, with the tasks of the mode.
  abbrev pub started_with : List Task → Started
  started_with feeds = record {
    fanout = fanout_of;
    commands = if config.dry_run then [] else reset_titan_state_at_boot fanout_of;
    tasks =
        spawn_titan_server config
        ++ spawn_triton_server config
        ++ feeds
        ++ (polls ∷ (if binds config.bind_addr then http_server config.bind_addr ∷ [] else []));
  }

module _ (decode : Base58Decode) (encode : List ℕ → Text) (port : Text → Option ℕ) where
  unfoldable pub run : (Text → Bool) → (Text → Bool) → (Text → Bool) → Config → Option Started
  unfolding connect spawn_titan_server spawn_triton_server spawn_feeds reset_titan_state_at_boot
  run opens connects binds config = elim (spawn_feeds decode encode port config) [
    | none ↦ none
    | some feeds ↦ some (started_with opens connects binds config feeds)
  ]
