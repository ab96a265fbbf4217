-- ===== src/Upstream/TritonShred/Gains.antt =====
-- What the commands of the shred listener add to its counters in Redis.
use feed_mux.Prelude.{
  ℕ, ◌≤◌, ◌≡◌, arith, List, [], ◌∷◌, Option, some, Text, codes, Result, ok, length,
}
use feed_mux.Fanout.{
  Command, ShredHitRow, FeedPayload, publish, record_shred_frame, record_shred_deshred,
  publish_shred_hit,
}
use feed_mux.Fanout.Keys
use feed_mux.Fanout.Counters.{gains}
use feed_mux.Fanout.Tally.{live, gains-append}
use feed_mux.Shred.Reassembly.{DeshredBatch}
use feed_mux.Shred.VaultWatch.{VaultHit, VaultWatchSet, hits_of, scan_hits}
use feed_mux.Upstream.TritonShred.{wake, WakeRow, Datagram, hit_commands}

abbrev pub Gains : List Command → ℕ → ℕ → ℕ → Type 0
Gains cs a b c =
    (gains Keys.shred_shreds cs ≡ some a)
    × (gains Keys.shred_txs_deshredded cs ≡ some b)
    × (gains Keys.shred_vault_hits cs ≡ some c)

hits_of-le :
    (encode : List ℕ → Text) (bytes : List ℕ) (vs : List (List ℕ))
    → length (hits_of encode bytes vs) ≤ length vs
unfolding hits_of
hits_of-le encode bytes [] = omega arith
hits_of-le encode bytes (v ∷ vs) = ground (arith, hits_of-le encode bytes vs)

pub scan_hits-le :
    (encode : List ℕ → Text) (w : VaultWatchSet) (bytes : List ℕ)
    → length (scan_hits encode w bytes) ≤ length w.vaults
unfolding scan_hits
scan_hits-le encode w bytes = ground (arith, hits_of-le encode bytes w.vaults)

pub frame-Gains : (channel : Text) (ts : ℕ) → Gains (record_shred_frame (live channel) ts) 1 0 0
unfolding record_shred_frame
frame-Gains channel ts = ground arith

pub deshred-Gains :
    (channel : Text) (n ts : ℕ) → n ≤ 256 → Gains (record_shred_deshred (live channel) n ts) 0 n 0
unfolding record_shred_deshred
deshred-Gains channel n ts h = ground (arith, h)

module _ (encode : List ℕ → Text) (hit_json : ShredHitRow → Result Text Text)
    (wake_json : FeedPayload WakeRow → Result Text Text) (channel : Text) (vaults : VaultWatchSet)
    (ttl skip : ℕ) (serial : (row : ShredHitRow) → (json : Text) × (hit_json row ≡ ok json)) where
  abbrev row : DeshredBatch → Datagram → VaultHit → ShredHitRow
  row batch d hit = record {
    schema = codes "mux.shred.hit.v1";
    vault = hit.vault_b58;
    slot = batch.slot;
    fec_set_index = batch.fec_set_index;
    src = d.src;
    ts_ms = d.ts;
  }

  row-Gains :
      (batch : DeshredBatch) (d : Datagram) (hit : VaultHit) (json : Text)
      → hit_json (row batch d hit) ≡ ok json
      → Gains
          (publish_shred_hit
            (live channel)
            hit_json
            hit
            batch.slot
            batch.fec_set_index
            d.src
            ttl
            d.ts)
          0
          0
          1
  unfolding publish_shred_hit
  row-Gains batch d hit json h = ground (arith, h)

  wake-Gains :
      (payload : FeedPayload WakeRow) (reply : Option Text)
      → Gains (publish (live channel) wake_json payload reply).0 0 0 0
  unfolding publish
  wake-Gains payload reply = ground arith

  pub hit-Gains :
      (batch : DeshredBatch) (d : Datagram) (hit : VaultHit)
      → Gains
          (hit_commands encode hit_json wake_json (live channel) vaults ttl skip batch d hit)
          0
          0
          1
  unfolding hit_commands
  hit-Gains batch d hit =
      let (json, e) = serial (row batch d hit) in
      let cs =
        publish_shred_hit (live channel) hit_json hit batch.slot batch.fec_set_index d.src ttl
          d.ts in
      let payload = wake encode hit_json wake_json (live channel) vaults ttl skip batch d hit in
      let ds = (publish (live channel) wake_json payload d.reply).0 in
      let (a, b, c) = row-Gains batch d hit json e in
      let (a', b', c') = wake-Gains payload d.reply in
      (
        gains-append Keys.shred_shreds cs ds 0 0 a a',
        gains-append Keys.shred_txs_deshredded cs ds 0 0 b b',
        gains-append Keys.shred_vault_hits cs ds 1 0 c c',
      )
