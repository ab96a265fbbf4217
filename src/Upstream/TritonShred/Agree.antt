-- ===== src/Upstream/TritonShred/Agree.antt =====
-- The counters of the process agree with those in Redis.
use native.Mathlib.Nat.{suc-mul}
use feed_mux.Prelude.{
  ℕ, ◌+◌, ◌*◌, ◌^◌, ◌≤◌, ◌<◌, ◌≡◌, refl, arith, List, [], ◌∷◌, ◌++◌, true, Text, Result, ok, length,
  Option-cases, inl, inr,
}
use feed_mux.Fanout.{
  Command, ShredHitRow, FeedPayload, record_shred_frame, record_shred_deshred,
  reset_shred_state_at_boot, set_shred_upstream_up,
}
use feed_mux.Fanout.Keys
use feed_mux.Fanout.Counters.{Server, zeroes, count_zeroes}
use feed_mux.Fanout.Tally.{live}
use feed_mux.Shred.Parse.{ParsedDataShred, parse_data_shred}
use feed_mux.Shred.Reassembly.{DeshredBatch, push}
use feed_mux.Shred.VaultWatch.{VaultHit, VaultWatchSet, scan_hits, count_transactions_estimate}
use feed_mux.Shred.VaultWatch.Estimate.{count_transactions_estimate_bounds}
use feed_mux.Upstream.TritonShred.Gains.{scan_hits-le, frame-Gains, deshred-Gains, hit-Gains}
use feed_mux.Upstream.TritonShred.InStep.{InStep, step-InStep}
use feed_mux.Upstream.TritonShred.{
  WakeRow, Datagram, UdpState, record_shred, record_deshred, record_vault_hit, hit_commands,
  on_hits, on_batch, count_frame, packet_of, on_shred, on_datagram, on_datagrams, run_udp_loop,
  new_stats, set_bound,
}

module _ (server : Server) (start : Server.State server) (encode : List ℕ → Text)
    (hit_json : ShredHitRow → Result Text Text) (wake_json : FeedPayload WakeRow → Result Text Text)
    (channel : Text) (vaults : VaultWatchSet) (ttl skip : ℕ)
    (serial : (row : ShredHitRow) → (json : Text) × (hit_json row ≡ ok json)) where
  abbrev Step : ℕ → UdpState → Type 0
  Step = InStep server start

  widen : (a b : ℕ) (s : UdpState) → a ≤ b → Step a s → Step b s
  widen a b s h i = record {
    same_shreds = i.same_shreds;
    same_txs = i.same_txs;
    same_hits = i.same_hits;
    shreds_le = omega (arith, h, i.shreds_le);
    txs_le = omega (arith, h, i.txs_le);
    hits_le = omega (arith, h, i.hits_le);
  }

  count_frame-InStep :
      (k : ℕ) (d : Datagram) (s : UdpState)
      → k + 1 < 2 ^ 63
      → Step k s
      → Step (k + 1) (count_frame encode hit_json wake_json (live channel) vaults ttl skip d s)
  unfolding count_frame record_shred
  count_frame-InStep k d s fits i =
      step-InStep server start k 1 1 0 0 (record_shred_frame (live channel) d.ts) s
        (record_shred s.stats d.ts) s.reassembler (frame-Gains channel d.ts)
        (omega arith, omega arith, omega arith)
        (refl, omega (arith, i.txs_le), omega (arith, i.hits_le)) fits i

  on_hits-InStep :
      (k : ℕ) (batch : DeshredBatch) (d : Datagram) (hits : List VaultHit) (s : UdpState)
      → k + length hits < 2 ^ 63
      → Step k s
      → Step
          (k + length hits)
          (on_hits encode hit_json wake_json (live channel) vaults ttl skip batch d hits s)
  unfolding on_hits record_vault_hit
  on_hits-InStep k batch d [] s fits i = widen k (k + 0) s (omega arith) i
  on_hits-InStep k batch d (hit ∷ hits) s fits i =
      let sum : k + length (hit ∷ hits) ≡ k + 1 + length hits = omega arith in
      rw sum (
        on_hits-InStep (k + 1) batch d hits
          (record s {
            stats = record_vault_hit s.stats d.ts;
            redis =
                s.redis
                ++ hit_commands encode hit_json wake_json (live channel) vaults ttl skip batch d
                    hit;
          })
          (omega arith)
          (step-InStep server start k 1 0 0 1
            (hit_commands encode hit_json wake_json (live channel) vaults ttl skip batch d hit) s
            (record_vault_hit s.stats d.ts) s.reassembler
            (hit-Gains encode hit_json wake_json channel vaults ttl skip serial batch d hit)
            (omega arith, omega arith, omega arith)
            (omega (arith, i.shreds_le), omega (arith, i.txs_le), refl) (omega arith) i))

  on_batch-InStep :
      (k : ℕ) (batch : DeshredBatch) (d : Datagram) (s : UdpState)
      → k + 256 + length vaults.vaults < 2 ^ 63
      → Step k s
      → Step
          (k + 256 + length vaults.vaults)
          (on_batch encode hit_json wake_json (live channel) vaults ttl skip batch d s)
  unfolding on_batch record_deshred
  on_batch-InStep k batch d s fits i =
      let n = count_transactions_estimate batch.bytes in
      let few : n ≤ 256 = (count_transactions_estimate_bounds batch.bytes).1 in
      let hits = scan_hits encode vaults batch.bytes in
      widen (k + 256 + length hits) (k + 256 + length vaults.vaults) _
        (omega (arith, scan_hits-le encode vaults batch.bytes))
        (on_hits-InStep (k + 256) batch d hits _
          (omega (arith, scan_hits-le encode vaults batch.bytes))
          (step-InStep server start k 256 0 n 0 (record_shred_deshred (live channel) n d.ts) s
            (record_deshred s.stats n) s.reassembler (deshred-Gains channel n d.ts few)
            (omega arith, few, omega arith)
            (omega (arith, i.shreds_le), refl, omega (arith, i.hits_le)) (omega arith) i))

  -- The most that one datagram adds to a counter.
  abbrev pub cost : ℕ
  cost = 257 + length vaults.vaults

  on_shred-InStep :
      (k : ℕ) (shred : ParsedDataShred) (d : Datagram) (s : UdpState)
      → k + 256 + length vaults.vaults < 2 ^ 63
      → Step k s
      → Step
          (k + 256 + length vaults.vaults)
          (on_shred encode hit_json wake_json (live channel) vaults ttl skip shred d s)
  unfolding on_shred
  on_shred-InStep k shred d s fits i =
      let r = (push s.reassembler shred).0 in
      let i' : Step k (record s { reassembler = r }) = record {
        same_shreds = i.same_shreds;
        same_txs = i.same_txs;
        same_hits = i.same_hits;
        shreds_le = i.shreds_le;
        txs_le = i.txs_le;
        hits_le = i.hits_le;
      } in
      elim (Option-cases (push s.reassembler shred).1) [
        | inl p ↦
            rw (on_shred, p)
              (widen k (k + 256 + length vaults.vaults) (record s { reassembler = r }) (omega arith)
                i')
        | inr (b, p) ↦
            rw (on_shred, p) (on_batch-InStep k b d (record s { reassembler = r }) fits i')
      ]

  on_datagram-InStep :
      (k : ℕ) (d : Datagram) (s : UdpState)
      → k + cost < 2 ^ 63
      → Step k s
      → Step (k + cost) (on_datagram encode hit_json wake_json (live channel) vaults ttl skip d s)
  unfolding on_datagram
  on_datagram-InStep k d s fits i =
      let s' = count_frame encode hit_json wake_json (live channel) vaults ttl skip d s in
      let i' = count_frame-InStep k d s (omega arith) i in
      let sum : k + cost ≡ k + 1 + 256 + length vaults.vaults = omega arith in
      let packet = packet_of encode hit_json wake_json (live channel) vaults ttl skip d in
      elim (Option-cases (parse_data_shred packet)) [
        | inl p ↦ rw (on_datagram, p) (widen (k + 1) (k + cost) s' (omega arith) i')
        | inr (shred, p) ↦
            rw (on_datagram, p, sum) (on_shred-InStep (k + 1) shred d s' (omega arith) i')
      ]

  on_datagrams-InStep :
      (k : ℕ) (ds : List Datagram) (s : UdpState)
      → k + length ds * cost < 2 ^ 63
      → Step k s
      → Step
          (k + length ds * cost)
          (on_datagrams encode hit_json wake_json (live channel) vaults ttl skip ds s)
  unfolding on_datagrams
  on_datagrams-InStep k [] s fits i = widen k (k + 0 * cost) s (omega arith) i
  on_datagrams-InStep k (d ∷ ds) s fits i =
      let sum : k + length (d ∷ ds) * cost ≡ k + cost + length ds * cost =
        omega (arith, suc-mul (length ds) cost) in
      rw sum (
        on_datagrams-InStep (k + cost) ds
          (on_datagram encode hit_json wake_json (live channel) vaults ttl skip d s)
          (omega (arith, suc-mul (length ds) cost))
          (on_datagram-InStep k d s (omega (arith, suc-mul (length ds) cost)) i))

  abbrev boot : List Command
  boot = reset_shred_state_at_boot (live channel) ++ set_shred_upstream_up (live channel) true

  boot_zero :
      (zeroes Keys.shred_shreds boot ≡ true)
      × (zeroes Keys.shred_txs_deshredded boot ≡ true)
      × (zeroes Keys.shred_vault_hits boot ≡ true)
  unfolding reset_shred_state_at_boot set_shred_upstream_up
  boot_zero = (refl, refl, refl)

  -- With a live fan-out, a socket that binds and hit rows that serialize, and with so few datagrams
  -- that no counter can reach 2^63, the numbers of shreds, of deshredded transactions and of vault
  -- hits that the process counts are those in Redis, after every sequence of datagrams.
  pub run_udp_loop-InStep :
      (ds : List Datagram)
      → length ds * cost < 2 ^ 63
      → InStep server start
          (length ds * cost)
          (run_udp_loop encode hit_json wake_json (live channel) vaults ttl skip true ds new_stats)
  unfolding run_udp_loop new_stats set_bound
  run_udp_loop-InStep ds fits = widen (0 + length ds * cost) (length ds * cost) _ (omega arith) (
      on_datagrams-InStep 0 ds _ (omega (arith, fits)) (record {
        same_shreds = count_zeroes server Keys.shred_shreds boot start boot_zero.0;
        same_txs = count_zeroes server Keys.shred_txs_deshredded boot start boot_zero.1;
        same_hits = count_zeroes server Keys.shred_vault_hits boot start boot_zero.2;
        shreds_le = omega arith;
        txs_le = omega arith;
        hits_le = omega arith;
      }))
