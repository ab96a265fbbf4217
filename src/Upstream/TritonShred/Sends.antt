-- ===== src/Upstream/TritonShred/Sends.antt =====
-- What holds of the commands of the fan-out's shred methods holds of all that the shred listener
-- sends.
use feed_mux.Prelude.{
  List, [], ◌∷◌, ◌++◌, Bool, true, false, ℕ, Text, codes, Result, All, All-append, Option-cases,
  inl, inr,
}
use feed_mux.Fanout.{
  Command, RedisFanout, FeedPayload, ShredHitRow, publish, publish_shred_hit, record_shred_frame,
  record_shred_deshred, reset_shred_state_at_boot, set_shred_upstream_up,
}
use feed_mux.Fanout.Silence.{
  Call, reset_shred, shred_up, shred_frame, deshredded, hit, event, commands,
}
use feed_mux.Shred.Parse.{ParsedDataShred, parse_data_shred}
use feed_mux.Shred.Reassembly.{DeshredBatch, push}
use feed_mux.Shred.VaultWatch.{VaultHit, VaultWatchSet, scan_hits, count_transactions_estimate}
use feed_mux.Upstream.TritonShred.{
  ShredStats, WakeRow, Datagram, UdpState, wake, hit_commands, on_hits, on_batch, packet_of,
  count_frame, on_shred, on_datagram, on_datagrams, run_udp_loop, record_vault_hit, record_deshred,
}

abbrev pub IsShredCall : Call → Type 0
IsShredCall reset_shred = Unit
IsShredCall (shred_up up) = Unit
IsShredCall (shred_frame ts) = Unit
IsShredCall (deshredded count ts) = Unit
IsShredCall (hit json h slot fec src ttl ts) = Unit
IsShredCall (event json reply) = Unit
IsShredCall _ = ⊥

module _ (f : RedisFanout) (P : Command → Type 0)
    (each : (c : Call) → IsShredCall c → All P (commands f c)) (encode : List ℕ → Text)
    (hit_json : ShredHitRow → Result Text Text) (wake_json : FeedPayload WakeRow → Result Text Text)
    (vaults : VaultWatchSet) (ttl skip : ℕ) where
  abbrev Kept : UdpState → Type 0
  Kept s = All P s.redis

  hit_commands_all :
      (batch : DeshredBatch) (d : Datagram) (h : VaultHit)
      → All P (hit_commands encode hit_json wake_json f vaults ttl skip batch d h)
  unfolding hit_commands publish_shred_hit publish
  hit_commands_all batch d h =
      let row : ShredHitRow = record {
        schema = codes "mux.shred.hit.v1";
        vault = h.vault_b58;
        slot = batch.slot;
        fec_set_index = batch.fec_set_index;
        src = d.src;
        ts_ms = d.ts;
      } in
      let payload = wake encode hit_json wake_json f vaults ttl skip batch d h in
      All-append P (publish_shred_hit f hit_json h batch.slot batch.fec_set_index d.src ttl d.ts)
        (publish f wake_json payload d.reply).0
        (each (hit (hit_json row) h batch.slot batch.fec_set_index d.src ttl d.ts) tt)
        (each (event (wake_json payload) d.reply) tt)

  on_hits-Kept :
      (batch : DeshredBatch) (d : Datagram) (hits : List VaultHit) (s : UdpState)
      → Kept s
      → Kept (on_hits encode hit_json wake_json f vaults ttl skip batch d hits s)
  unfolding on_hits
  on_hits-Kept batch d [] s k = k
  on_hits-Kept batch d (h ∷ hits) s k =
      let cs = hit_commands encode hit_json wake_json f vaults ttl skip batch d h in
      on_hits-Kept batch d hits
        (record s { stats = record_vault_hit s.stats d.ts; redis = s.redis ++ cs })
        (All-append P s.redis cs k (hit_commands_all batch d h))

  on_batch-Kept :
      (batch : DeshredBatch) (d : Datagram) (s : UdpState)
      → Kept s
      → Kept (on_batch encode hit_json wake_json f vaults ttl skip batch d s)
  unfolding on_batch record_shred_deshred
  on_batch-Kept batch d s k =
      let count = count_transactions_estimate batch.bytes in
      on_hits-Kept batch d (scan_hits encode vaults batch.bytes)
        (record s {
          stats = record_deshred s.stats count;
          redis = s.redis ++ record_shred_deshred f count d.ts;
        })
        (All-append P s.redis (record_shred_deshred f count d.ts) k
          (each (deshredded count d.ts) tt))

  count_frame-Kept :
      (d : Datagram) (s : UdpState)
      → Kept s
      → Kept (count_frame encode hit_json wake_json f vaults ttl skip d s)
  unfolding count_frame record_shred_frame
  count_frame-Kept d s k =
      All-append P s.redis (record_shred_frame f d.ts) k (each (shred_frame d.ts) tt)

  on_shred-Kept :
      (shred : ParsedDataShred) (d : Datagram) (s : UdpState)
      → Kept s
      → Kept (on_shred encode hit_json wake_json f vaults ttl skip shred d s)
  unfolding on_shred
  on_shred-Kept shred d s k = elim (Option-cases (push s.reassembler shred).1) [
    | inl h ↦ rw (on_shred, h) k
    | inr (b, h) ↦
        rw (on_shred, h)
          (on_batch-Kept b d (record s { reassembler = (push s.reassembler shred).0 }) k)
  ]

  on_datagram-Kept :
      (d : Datagram) (s : UdpState)
      → Kept s
      → Kept (on_datagram encode hit_json wake_json f vaults ttl skip d s)
  unfolding on_datagram
  on_datagram-Kept d s k =
      let packet = packet_of encode hit_json wake_json f vaults ttl skip d in
      let counted = count_frame encode hit_json wake_json f vaults ttl skip d s in
      elim (Option-cases (parse_data_shred packet)) [
        | inl h ↦ rw (on_datagram, h) (count_frame-Kept d s k)
        | inr (shred, h) ↦
            rw (on_datagram, h) (on_shred-Kept shred d counted (count_frame-Kept d s k))
      ]

  on_datagrams-Kept :
      (ds : List Datagram) (s : UdpState)
      → Kept s
      → Kept (on_datagrams encode hit_json wake_json f vaults ttl skip ds s)
  unfolding on_datagrams
  on_datagrams-Kept [] s k = k
  on_datagrams-Kept (d ∷ ds) s k =
      on_datagrams-Kept ds (on_datagram encode hit_json wake_json f vaults ttl skip d s)
        (on_datagram-Kept d s k)

  -- A predicate that holds of every command of the shred methods of the fan-out holds of every command
  -- of the listener after any datagrams.
  pub run_udp_loop-Kept :
      (binds : Bool) (ds : List Datagram) (stats : ShredStats)
      → Kept (run_udp_loop encode hit_json wake_json f vaults ttl skip binds ds stats)
  unfolding run_udp_loop reset_shred_state_at_boot set_shred_upstream_up
  run_udp_loop-Kept true ds stats = on_datagrams-Kept ds _ (
      All-append P (reset_shred_state_at_boot f) (set_shred_upstream_up f true)
        (each reset_shred tt) (each (shred_up true) tt))
  run_udp_loop-Kept false ds stats = each (shred_up false) tt
