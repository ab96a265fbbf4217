-- ===== src/Relay/TritonService.antt =====
-- src/triton_local.rs: the gRPC service of the local relay. `U` stands for `SubscribeUpdate`, and the
-- parameter of `get_version` for the version of the package, which the build sets.
pub mod Stream
pub mod Refusal
use feed_mux.Prelude.{
  ℕ, List, [], ◌∷◌, Bool, true, false, not, if◌then◌else◌, Text, codes, Result, ok, err, Option,
  none, some,
}
use feed_mux.Upstream.Triton.{TritonLocalEvent, update_event, upstream_connected}
use feed_mux.Relay.Channel.{Received, value, lagged, channel_closed}

pub data Status : Type 0 where
  unavailable : Text → Status
  unimplemented : Text → Status

-- The closure of `filter_map`; a closed channel ends the stream and yields nothing.
unfoldable pub item_of : {U : Type 0} → Received (TritonLocalEvent U) → Option (Result Status U)
item_of (value (update_event u)) = some (ok u)
item_of (value (upstream_connected true)) = none
item_of (value (upstream_connected false)) =
    some (err (unavailable (codes "Triton upstream disconnected")))
item_of (lagged n) = none
item_of channel_closed = none

-- What the stream has yielded, for what its receiver has received.
unfoldable pub stream_of :
    {U : Type 0} → List (Received (TritonLocalEvent U)) → List (Result Status U)
unfolding item_of
stream_of [] = []
stream_of (r ∷ rs) =
    let rest = stream_of rs in elim (item_of r) [ none ↦ rest | some item ↦ item ∷ rest ]

-- The flag of the relay after its calls, each of which sends one event.
unfoldable pub relay_flag : {U : Type 0} → Bool → List (TritonLocalEvent U) → Bool
relay_flag flag [] = flag
relay_flag flag (update_event u ∷ es) = relay_flag flag es
relay_flag flag (upstream_connected up ∷ es) = relay_flag up es

-- `connected` is the relay's flag, `received` what the new receiver gets. The requests that the
-- client streams are read and dropped.
unfoldable pub subscribe :
    {U : Type 0}
    → Bool
    → List (Received (TritonLocalEvent U))
    → Result Status (List (Result Status U))
unfolding stream_of
subscribe connected received =
    if not connected
    then err (
        unavailable
          (codes "Triton upstream not connected — check ENABLE_TRITON_GRPC and TRITON_GRPC_URL"))
    else ok (stream_of received)

-- The other calls.
pub data Call : Type 0 where
  subscribe_deshred subscribe_gossip subscribe_replay_info : Call
  ping : ℕ → Call
  get_latest_blockhash get_block_height get_slot is_blockhash_valid get_version : Call

pub data Reply : Type 0 where
  empty_stream : Reply
  pong : ℕ → Reply
  version : Text → Reply

unfoldable pub answer : Text → Call → Result Status Reply
answer package_version subscribe_deshred = ok empty_stream
answer package_version subscribe_gossip = ok empty_stream
answer package_version subscribe_replay_info =
    err (unimplemented (codes "SubscribeReplayInfo not relayed"))
answer package_version (ping count) = ok (pong count)
answer package_version get_latest_blockhash =
    err (unimplemented (codes "get_latest_blockhash not relayed"))
answer package_version get_block_height = err (unimplemented (codes "get_block_height not relayed"))
answer package_version get_slot = err (unimplemented (codes "get_slot not relayed"))
answer package_version is_blockhash_valid =
    err (unimplemented (codes "is_blockhash_valid not relayed"))
answer package_version get_version = ok (version package_version)
