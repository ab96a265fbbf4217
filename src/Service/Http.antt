-- ===== src/Service/Http.antt =====
-- src/http.rs: the two endpoints. The times are arguments; `J` stands for `serde_json::Value`.
pub mod Answers
use feed_mux.Prelude.{
  ℕ, List, [], Bool, true, Option, none, some, is_some, unwrap_or, length, Text, codes, Result, ok,
  err,
}
use feed_mux.Config.{Config, Base58Decode}
use feed_mux.Fanout.{Command, RedisFanout, FeedPayload, PublishResult}
use feed_mux.Fanout
use feed_mux.Upstream.TritonShred.{ShredStats, ShredStatsSnapshot, snapshot}
use feed_mux.Upstream.Live.{UpstreamStatus, Flags, statuses}

pub record ShredHealth : Type 0 where
  pub enabled : Bool
  pub bind : Text
  pub vaults : ℕ
  pub shreds : ℕ
  pub txs_deshredded : ℕ
  pub vault_hits : ℕ
  pub last_ms : ℕ
  pub last_hit_ms : ℕ
  pub last_age_ms : ℕ
  pub bound : Bool

unfoldable pub from_snapshot : ShredStatsSnapshot → ShredHealth
from_snapshot snapshot = record {
  enabled = true;
  bind = [];
  vaults = 0;
  shreds = snapshot.shreds;
  txs_deshredded = snapshot.txs_deshredded;
  vault_hits = snapshot.vault_hits;
  last_ms = snapshot.last_ms;
  last_hit_ms = snapshot.last_hit_ms;
  last_age_ms = snapshot.last_age_ms;
  bound = snapshot.bound;
}

pub record HealthResponse : Type 0 where
  pub status : Text
  pub dry_run : Bool
  pub redis_configured : Bool
  pub redis_channel : Text
  pub upstreams : List UpstreamStatus
  pub shred : ShredHealth
  pub ts : Text

-- The atomic fields that the tasks set: the flags, and the counters of the shred listener, whose own
-- `bound` is the flag of its status.
abbrev pub flags_of :
    (titan_connected triton_connected triton_auth_blocked : Bool) → ShredStats → Flags
flags_of titan_connected triton_connected triton_auth_blocked stats = record {
  titan_connected = titan_connected;
  triton_connected = triton_connected;
  triton_auth_blocked = triton_auth_blocked;
  shred_bound = stats.bound;
}

module _ (decode : Base58Decode) (port : Text → Option ℕ) (config : Config) where
  unfoldable pub shred_health : ShredStats → ℕ → ShredHealth
  unfolding from_snapshot snapshot
  shred_health stats now_ms = record (from_snapshot (snapshot stats now_ms)) {
    enabled = config.enable_triton_shred;
    bind = config.shred_bind;
    vaults = length config.shred_watch_vaults;
  }

  -- The three flags are those of the Titan and the Triton task.
  unfoldable pub health : Bool → Bool → Bool → ShredStats → ℕ → Text → HealthResponse
  unfolding shred_health statuses
  health titan_connected triton_connected auth_blocked stats now_ms now_text = record {
    status = codes "ok";
    dry_run = config.dry_run;
    redis_configured = is_some config.redis_url;
    redis_channel = config.redis_channel;
    upstreams =
        statuses decode port config (flags_of titan_connected triton_connected auth_blocked stats);
    shred = shred_health stats now_ms;
    ts = now_text;
  }

pub record PublishRequest (J : Type 0) : Type 0 where
  pub event : Option Text
  pub source : Option Text
  pub data_json : Option J

pub record PublishResponse : Type 0 where
  pub succeeded : Bool
  pub result : PublishResult

unfoldable pub payload_of : {J : Type 0} → PublishRequest J → Text → FeedPayload J
payload_of req now_text = record {
  event = unwrap_or req.event (codes "manual.publish");
  source = unwrap_or req.source (codes "feed-mux");
  ts = now_text;
  data_json = req.data_json;
}

abbrev pub service_unavailable : ℕ
service_unavailable = 503

abbrev respond : Result Fanout.FanoutError PublishResult → Result ℕ PublishResponse
respond (ok result) = ok (record { succeeded = true; result = result })
respond (err e) = err service_unavailable

-- The commands sent, and the response or the status code of the error.
unfoldable pub publish :
    {J : Type 0}
    → (FeedPayload J → Result Text Text)
    → RedisFanout
    → PublishRequest J
    → Text
    → Option Text
    → List Command × Result ℕ PublishResponse
unfolding payload_of Fanout.publish
publish to_json fanout req now_text reply =
    let (commands, result) = Fanout.publish fanout to_json (payload_of req now_text) reply in
    (commands, respond result)
