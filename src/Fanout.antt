-- ===== src/Fanout.antt =====
-- src/redis_fanout.rs: the fan-out to Redis. A method is the list of commands that it sends, in
-- order; the server's answers only reach the logs, but for `publish`, which takes the answer as an
-- argument. Times are arguments. `serde_json` is a parameter: a serializer is a function into a
-- text or an error.
pub mod Keys
pub mod Silence
pub mod Counters
pub mod Arrivals
pub mod Store
pub mod KeyLaws
pub mod Tally
pub mod Schema
mod Tests
use feed_mux.Prelude.{
  ℕ, ◌+◌, max, List, [], ◌∷◌, ◌++◌, Bool, true, false, ◌&&◌, not, Option, none, some, if◌then◌else◌,
  Text, codes, Result, ok, err, ℤ, pos, as_i64, utf8_len,
}
use feed_mux.Prelude.Decimal.{to_string}
use feed_mux.Shred.VaultWatch.{VaultHit}
use Keys

pub data Command : Type 0 where
  set : Text → Text → Command
  set_ex : Text → Text → ℕ → Command
  incr : Text → ℤ → Command
  del : Text → Command
  publish_to : Text → Text → Command

pub data FanoutError : Type 0 where
  not_configured : FanoutError
  publish_failed : Text → FanoutError

pub data TitanMessageOutcome : Type 0 where
  quote_published rpc_error unhandled : TitanMessageOutcome

-- `conn` is whether a connection manager is held.
pub record RedisFanout : Type 0 where
  pub channel : Text
  pub dry_run : Bool
  pub conn : Bool

-- `J` stands for `serde_json::Value`.
pub record FeedPayload (J : Type 0) : Type 0 where
  pub event : Text
  pub source : Text
  pub ts : Text
  pub data_json : Option J

pub record PublishResult : Type 0 where
  pub channel : Text
  pub dry_run : Bool
  pub delivered : Bool
  pub payload_bytes : ℕ

-- `opens` and `connects` stand for `Client::open` and `ConnectionManager::new`.
unfoldable pub connect : (Text → Bool) → (Text → Bool) → Option Text → Text → Bool → RedisFanout
connect opens connects redis_url channel dry_run = record {
  channel = channel;
  dry_run = dry_run;
  conn =
      if dry_run
      then false
      else elim redis_url [ none ↦ false | some url ↦ opens url && connects url ];
}

-- The common shape of the methods: nothing in a dry run, nothing without a connection.
abbrev pub sends : RedisFanout → List Command → List Command
sends f commands = if f.dry_run then [] else if f.conn then commands else []

-- `reply` is the server's answer to PUBLISH: an error, or none.
unfoldable pub publish {ℓ} :
    {P : Type ℓ}
    → RedisFanout
    → (P → Result Text Text)
    → P
    → Option Text
    → List Command × Result FanoutError PublishResult
publish f to_json payload reply = elim (to_json payload) [
  | err e ↦ ([], err (publish_failed e))
  | ok json ↦
      if f.dry_run
      then (
        [],
        ok (record {
          channel = f.channel;
          dry_run = true;
          delivered = false;
          payload_bytes = utf8_len json;
        }),
      )
      else if not f.conn
      then ([], err not_configured)
      else elim reply [
        | some e ↦ (publish_to f.channel json ∷ [], err (publish_failed e))
        | none ↦ (
          publish_to f.channel json ∷ [],
          ok (record {
            channel = f.channel;
            dry_run = false;
            delivered = true;
            payload_bytes = utf8_len json;
          }),
        )
      ]
]

abbrev zero_text : Text
zero_text = codes "0"

abbrev one_text : Text
one_text = codes "1"

abbrev empty_board : Text
empty_board = codes "{\"schema\":\"mux.titan.size_board.v1\",\"pins\":[]}"

unfoldable pub reset_titan_state_at_boot : RedisFanout → List Command
reset_titan_state_at_boot f = sends f (
    set Keys.titan_frames zero_text
    ∷ set Keys.titan_decoded zero_text
    ∷ set Keys.titan_errors zero_text
    ∷ set Keys.titan_served zero_text
    ∷ set Keys.titan_hop1_served zero_text
    ∷ set Keys.titan_size_board empty_board
    ∷ set Keys.titan_fell_through zero_text
    ∷ set Keys.titan_pairs_live zero_text
    ∷ set Keys.titan_last_frame_ms zero_text
    ∷ set Keys.titan_freshest_ms zero_text
    ∷ set Keys.meta_titan_up zero_text
    ∷ set Keys.meta_triton_up zero_text
    ∷ set Keys.triton_frames zero_text
    ∷ set Keys.triton_last_frame_ms zero_text
    ∷ [])

unfoldable pub reset_shred_state_at_boot : RedisFanout → List Command
reset_shred_state_at_boot f = sends f (
    set Keys.meta_shred_up zero_text
    ∷ set Keys.shred_shreds zero_text
    ∷ set Keys.shred_txs_deshredded zero_text
    ∷ set Keys.shred_vault_hits zero_text
    ∷ set Keys.shred_last_ms zero_text
    ∷ set Keys.shred_last_hit_ms zero_text
    ∷ del Keys.shred_hit
    ∷ [])

unfoldable pub heartbeat : RedisFanout → ℕ → List Command
heartbeat f now = sends f (set Keys.meta_heartbeat_ms (to_string now) ∷ [])

abbrev pub flag : Bool → Text
flag up = if up then one_text else zero_text

unfoldable pub set_titan_upstream_up : RedisFanout → Bool → List Command
set_titan_upstream_up f up = sends f (
    set Keys.meta_titan_up (flag up)
    ∷ (if up then [] else set Keys.titan_pairs_live zero_text ∷ []))

unfoldable pub set_triton_upstream_up : RedisFanout → Bool → List Command
set_triton_upstream_up f up = sends f (set Keys.meta_triton_up (flag up) ∷ [])

unfoldable pub set_shred_upstream_up : RedisFanout → Bool → List Command
set_shred_upstream_up f up = sends f (set Keys.meta_shred_up (flag up) ∷ [])

unfoldable pub incr_key : RedisFanout → Text → List Command
incr_key f key = sends f (incr key (pos 1) ∷ [])

unfoldable pub record_titan_decode_error : RedisFanout → List Command
unfolding incr_key
record_titan_decode_error f = incr_key f Keys.titan_errors

unfoldable pub record_titan_quote_success : RedisFanout → ℕ → List Command
record_titan_quote_success f ts =
    if f.conn
    then incr Keys.titan_frames (pos 1)
      ∷ incr Keys.titan_decoded (pos 1)
      ∷ set Keys.titan_last_frame_ms (to_string ts)
      ∷ set Keys.titan_freshest_ms (to_string ts)
      ∷ set Keys.titan_pairs_live one_text
      ∷ set Keys.meta_titan_up one_text
      ∷ []
    else []

unfoldable pub record_titan_message : RedisFanout → TitanMessageOutcome → ℕ → List Command
unfolding incr_key record_titan_quote_success
record_titan_message f outcome now = if f.dry_run then [] else elim outcome [
  | quote_published ↦ record_titan_quote_success f now
  | rpc_error ↦ incr_key f Keys.titan_errors
  | unhandled ↦ incr_key f Keys.titan_fell_through
]

-- The source's `ttl_secs.max(1)`.
abbrev pub ttl_of : ℕ → ℕ
ttl_of ttl_secs = max ttl_secs 1

unfoldable pub publish_titan_hop1 {ℓ} :
    {R : Type ℓ} → RedisFanout → (R → Result Text Text) → R → Text → ℕ → ℕ → List Command
publish_titan_hop1 f to_json row pair size_lamports ttl_secs =
    if f.dry_run then [] else elim (to_json row) [
      | err e ↦ []
      | ok json ↦ sends f (
          set_ex (Keys.hop1_row_key pair size_lamports) json (ttl_of ttl_secs)
          ∷ incr Keys.titan_hop1_served (pos 1)
          ∷ [])
    ]

unfoldable pub publish_titan_size_board {ℓ} :
    {B : Type ℓ} → RedisFanout → (B → Result Text Text) → B → List Command
publish_titan_size_board f to_json board = if f.dry_run then [] else elim (to_json board) [
  | err e ↦ []
  | ok json ↦ sends f (set Keys.titan_size_board json ∷ [])
]

unfoldable pub record_shred_frame : RedisFanout → ℕ → List Command
record_shred_frame f ts = sends f (
    incr Keys.shred_shreds (pos 1)
    ∷ set Keys.shred_last_ms (to_string ts)
    ∷ set Keys.meta_shred_up one_text
    ∷ [])

unfoldable pub record_shred_deshred : RedisFanout → ℕ → ℕ → List Command
record_shred_deshred f tx_count ts =
    sends f (
      incr Keys.shred_txs_deshredded (as_i64 tx_count) ∷ set Keys.shred_last_ms (to_string ts) ∷ [])

-- The `json!` object of a hit.
pub record ShredHitRow : Type 0 where
  pub schema : Text
  pub vault : Text
  pub slot : ℕ
  pub fec_set_index : ℕ
  pub src : Text
  pub ts_ms : ℕ

unfoldable pub publish_shred_hit :
    RedisFanout → (ShredHitRow → Result Text Text) → VaultHit → ℕ → ℕ → Text → ℕ → ℕ → List Command
publish_shred_hit f to_json hit slot fec_set_index src ttl_secs ts =
    if f.dry_run
    then []
    else elim (to_json (record {
      schema = codes "mux.shred.hit.v1";
      vault = hit.vault_b58;
      slot = slot;
      fec_set_index = fec_set_index;
      src = src;
      ts_ms = ts;
    })) [
      | err e ↦ []
      | ok json ↦ sends f (
          set_ex Keys.shred_hit json (ttl_of ttl_secs)
          ∷ incr Keys.shred_vault_hits (pos 1)
          ∷ set Keys.shred_last_hit_ms (to_string ts)
          ∷ [])
    ]

unfoldable pub record_triton_frame : RedisFanout → ℕ → List Command
record_triton_frame f now = sends f (
    incr Keys.triton_frames (pos 1)
    ∷ set Keys.triton_last_frame_ms (to_string now)
    ∷ set Keys.meta_triton_up one_text
    ∷ [])
