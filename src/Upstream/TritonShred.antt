-- ===== src/Upstream/TritonShred.antt =====
-- src/upstream/triton_shred.rs: the loop over the UDP datagrams. A datagram comes with its sender, the
-- time at which it is read and the answer of Redis to a PUBLISH. The atomic counters wrap at 2^64.
-- `hit_json` and `wake_json` stand for serde_json, `encode` for the crate bs58.
pub mod InStep
pub mod Gains
pub mod Agree
pub mod Sends
pub mod Wire
pub mod Added
pub mod Pipeline
mod Tests
use feed_mux.Prelude.{
  ℕ, zero, suc, ◌+◌, ◌-◌, ◌*◌, ◌%◌, ◌^◌, min, List, [], ◌∷◌, ◌++◌, Bool, true, false, Option, none,
  some, if◌then◌else◌, Text, codes, Result, ok, err, length, take, drop, ◌==◌,
}
use feed_mux.Fanout.{
  Command, RedisFanout, ShredHitRow, FeedPayload, publish, record_shred_frame, record_shred_deshred,
  publish_shred_hit, reset_shred_state_at_boot, set_shred_upstream_up,
}
use feed_mux.Shred.Parse.{ParsedDataShred, max_datagram_size, parse_data_shred}
use feed_mux.Shred.Reassembly.{ShredReassembler, DeshredBatch, new, push}
use feed_mux.Shred.VaultWatch.{VaultHit, VaultWatchSet, scan_hits, count_transactions_estimate}

pub record ShredStats : Type 0 where
  pub shreds : ℕ
  pub txs_deshredded : ℕ
  pub vault_hits : ℕ
  pub last_ms : ℕ
  pub last_hit_ms : ℕ
  pub bound : Bool

unfoldable pub new_stats : ShredStats
new_stats = record {
  shreds = 0;
  txs_deshredded = 0;
  vault_hits = 0;
  last_ms = 0;
  last_hit_ms = 0;
  bound = false;
}

unfoldable pub record_shred : ShredStats → ℕ → ShredStats
record_shred stats ts = record stats { shreds = (stats.shreds + 1) % 2 ^ 64; last_ms = ts }

unfoldable pub record_deshred : ShredStats → ℕ → ShredStats
record_deshred stats tx_count = record stats {
  txs_deshredded = (stats.txs_deshredded + tx_count) % 2 ^ 64;
}

unfoldable pub record_vault_hit : ShredStats → ℕ → ShredStats
record_vault_hit stats ts = record stats {
  vault_hits = (stats.vault_hits + 1) % 2 ^ 64;
  last_hit_ms = ts;
}

unfoldable pub set_bound : ShredStats → Bool → ShredStats
set_bound stats bound = record stats { bound = bound }

pub record ShredStatsSnapshot : Type 0 where
  pub shreds : ℕ
  pub txs_deshredded : ℕ
  pub vault_hits : ℕ
  pub last_ms : ℕ
  pub last_hit_ms : ℕ
  pub last_age_ms : ℕ
  pub bound : Bool

unfoldable pub snapshot : ShredStats → ℕ → ShredStatsSnapshot
snapshot stats now_ms = record {
  shreds = stats.shreds;
  txs_deshredded = stats.txs_deshredded;
  vault_hits = stats.vault_hits;
  last_ms = stats.last_ms;
  last_hit_ms = stats.last_hit_ms;
  last_age_ms = if stats.last_ms == 0 then 0 else now_ms - stats.last_ms;
  bound = stats.bound;
}

-- The `json!` object of a wake event.
pub record WakeRow : Type 0 where
  pub schema : Text
  pub vault : Text
  pub slot : ℕ
  pub fec_set_index : ℕ
  pub src : Text

-- A datagram as it is sent: `bytes` are all of its bytes. `now_text` is the time in RFC 3339.
pub record Datagram : Type 0 where
  pub bytes : List ℕ
  pub src : Text
  pub ts : ℕ
  pub now_text : Text
  pub reply : Option Text

-- `recv_from` into a buffer of `MAX_DATAGRAM_SIZE` bytes: the bytes past its end are lost.
unfoldable pub received : Datagram → List ℕ
received d = take max_datagram_size d.bytes

pub record UdpState : Type 0 where
  pub stats : ShredStats
  pub reassembler : ShredReassembler
  pub redis : List Command

module _ (encode : List ℕ → Text) (hit_json : ShredHitRow → Result Text Text)
    (wake_json : FeedPayload WakeRow → Result Text Text) (fanout : RedisFanout)
    (vaults : VaultWatchSet) (hit_ttl_secs udp_prefix_skip : ℕ) where
  abbrev wake : DeshredBatch → Datagram → VaultHit → FeedPayload WakeRow
  wake batch d hit = record {
    event = codes "shred.vault_hit";
    source = codes "triton_shred_udp";
    ts = d.now_text;
    data_json = some (record {
      schema = codes "mux.shred.wake.v1";
      vault = hit.vault_b58;
      slot = batch.slot;
      fec_set_index = batch.fec_set_index;
      src = d.src;
    });
  }

  -- The commands for one hit.
  unfoldable pub hit_commands : DeshredBatch → Datagram → VaultHit → List Command
  unfolding publish_shred_hit publish
  hit_commands batch d hit =
      publish_shred_hit fanout hit_json hit batch.slot batch.fec_set_index d.src hit_ttl_secs d.ts
      ++ (publish fanout wake_json (wake batch d hit) d.reply).0

  -- The loop over the hits of a batch.
  unfoldable pub on_hits : DeshredBatch → Datagram → List VaultHit → UdpState → UdpState
  unfolding hit_commands record_vault_hit
  on_hits batch d [] s = s
  on_hits batch d (hit ∷ hits) s = on_hits batch d hits (record s {
    stats = record_vault_hit s.stats d.ts;
    redis = s.redis ++ hit_commands batch d hit;
  })

  unfoldable pub on_batch : DeshredBatch → Datagram → UdpState → UdpState
  unfolding on_hits record_deshred record_shred_deshred scan_hits count_transactions_estimate
  on_batch batch d s =
      let tx_count = count_transactions_estimate batch.bytes in
      on_hits batch d (scan_hits encode vaults batch.bytes) (record s {
        stats = record_deshred s.stats tx_count;
        redis = s.redis ++ record_shred_deshred fanout tx_count d.ts;
      })

  -- `&buf[start..size]`.
  unfoldable pub packet_of : Datagram → List ℕ
  unfolding received
  packet_of d = drop (min udp_prefix_skip (length (received d))) (received d)

  unfoldable pub count_frame : Datagram → UdpState → UdpState
  unfolding record_shred record_shred_frame
  count_frame d s = record s {
    stats = record_shred s.stats d.ts;
    redis = s.redis ++ record_shred_frame fanout d.ts;
  }

  unfoldable pub on_shred : ParsedDataShred → Datagram → UdpState → UdpState
  unfolding push on_batch
  on_shred shred d s =
      let (r, batch) = push s.reassembler shred in
      elim batch [
        | none ↦ record s { reassembler = r }
        | some b ↦ on_batch b d (record s { reassembler = r })
      ]

  -- One turn of the loop.
  unfoldable pub on_datagram : Datagram → UdpState → UdpState
  unfolding packet_of count_frame on_shred parse_data_shred
  on_datagram d s = elim (parse_data_shred (packet_of d)) [
    | none ↦ count_frame d s
    | some shred ↦ on_shred shred d (count_frame d s)
  ]

  -- The datagrams so far; a failure to receive only sleeps.
  unfoldable pub on_datagrams : List Datagram → UdpState → UdpState
  unfolding on_datagram
  on_datagrams [] s = s
  on_datagrams (d ∷ ds) s = on_datagrams ds (on_datagram d s)

  -- `binds` is whether the socket can be bound.
  unfoldable pub run_udp_loop : Bool → List Datagram → ShredStats → UdpState
  unfolding on_datagrams set_bound reset_shred_state_at_boot set_shred_upstream_up new
  run_udp_loop binds ds stats =
      if binds
      then on_datagrams ds (record {
        stats = set_bound stats true;
        reassembler = new 256;
        redis = reset_shred_state_at_boot fanout ++ set_shred_upstream_up fanout true;
      })
      else record {
        stats = set_bound stats false;
        reassembler = new 256;
        redis = set_shred_upstream_up fanout false;
      }
