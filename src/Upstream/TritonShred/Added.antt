-- ===== src/Upstream/TritonShred/Added.antt =====
-- What one datagram of the shred listener adds to its state, and what several leave of the reassembler.
use mathlib.Core.List.{Mem, mem-append_left, mem-append_right, mem-cons, not-mem-nil, Mem-prop}
use mathlib.Core.Logic.Or
use feed_mux.Prelude.{
  ℕ, ◌+◌, ◌%◌, ◌^◌, ◌≡◌, refl, ap, ◌∙◌, arith, List, [], ◌∷◌, ◌++◌, some, length, Text, Result,
  Option-cases, inl, inr, append-nil, append_assoc,
}
use feed_mux.Fanout.{
  Command, RedisFanout, ShredHitRow, FeedPayload, record_shred_frame, record_shred_deshred,
}
use feed_mux.Shred.Parse.{ParsedDataShred}
use feed_mux.Shred.Reassembly.{DeshredBatch, push}
use feed_mux.Shred.Reassembly.Order.{deliver}
use feed_mux.Shred.Reassembly.Assembly.{joined}
use feed_mux.Shred.VaultWatch.{VaultHit, VaultWatchSet, scan_hits, count_transactions_estimate}
use feed_mux.Upstream.TritonShred.Wire.{Carries, Wire, parse_data_shred-Carries}
use feed_mux.Upstream.TritonShred.{
  WakeRow, Datagram, UdpState, hit_commands, on_hits, on_batch, packet_of, count_frame, on_shred,
  on_datagram, on_datagrams, record_vault_hit, record_deshred,
}

-- The batch of a set whose shreds, in the order of their indices, are the given ones.
abbrev pub batch_of : ParsedDataShred → List ParsedDataShred → DeshredBatch
batch_of last ordered = record {
  slot = last.slot;
  fec_set_index = last.fec_set_index;
  bytes = joined (ordered ++ last ∷ []);
}

module _ (encode : List ℕ → Text) (hit_json : ShredHitRow → Result Text Text)
    (wake_json : FeedPayload WakeRow → Result Text Text) (f : RedisFanout) (vaults : VaultWatchSet)
    (ttl skip : ℕ) where
  -- The commands for several hits.
  abbrev pub all_hit_commands : DeshredBatch → Datagram → List VaultHit → List Command
  all_hit_commands batch d [] = []
  all_hit_commands batch d (h ∷ hits) =
      hit_commands encode hit_json wake_json f vaults ttl skip batch d h
      ++ all_hit_commands batch d hits

  -- What a batch adds to the state.
  record Added (s t : UdpState) (hits : ℕ) (cs : List Command) : Type 0 where
    same_sets : t.reassembler ≡ s.reassembler
    counted : t.stats.vault_hits % 2 ^ 64 ≡ (s.stats.vault_hits + hits) % 2 ^ 64
    sent : t.redis ≡ s.redis ++ cs

  on_hits-Added :
      (batch : DeshredBatch) (d : Datagram) (hits : List VaultHit) (s : UdpState)
      → Added s
          (on_hits encode hit_json wake_json f vaults ttl skip batch d hits s)
          (length hits)
          (all_hit_commands batch d hits)
  unfolding on_hits record_vault_hit
  on_hits-Added batch d [] s = record {
    same_sets = refl;
    counted = omega arith;
    sent = rw append-nil;
  }
  on_hits-Added batch d (h ∷ hits) s =
      let cs = hit_commands encode hit_json wake_json f vaults ttl skip batch d h in
      let a =
        on_hits-Added batch d hits
          (record s { stats = record_vault_hit s.stats d.ts; redis = s.redis ++ cs }) in
      record {
        same_sets = a.same_sets;
        counted = omega (arith, a.counted);
        sent = a.sent ∙ append_assoc s.redis cs (all_hit_commands batch d hits);
      }

  -- The commands for a batch.
  abbrev pub batch_commands : DeshredBatch → Datagram → List Command
  batch_commands batch d =
      record_shred_deshred f (count_transactions_estimate batch.bytes) d.ts
      ++ all_hit_commands batch d (scan_hits encode vaults batch.bytes)

  on_batch-Added :
      (batch : DeshredBatch) (d : Datagram) (s : UdpState)
      → Added s
          (on_batch encode hit_json wake_json f vaults ttl skip batch d s)
          (length (scan_hits encode vaults batch.bytes))
          (batch_commands batch d)
  unfolding on_batch record_deshred
  on_batch-Added batch d s =
      let count = count_transactions_estimate batch.bytes in
      let hits = scan_hits encode vaults batch.bytes in
      let cs = record_shred_deshred f count d.ts in
      let a =
        on_hits-Added batch d hits
          (record s { stats = record_deshred s.stats count; redis = s.redis ++ cs }) in
      record {
        same_sets = a.same_sets;
        counted = a.counted;
        sent = a.sent ∙ append_assoc s.redis cs (all_hit_commands batch d hits);
      }

  -- The commands of one of the hits are among those of all.
  pub hit_among :
      (batch : DeshredBatch) (d : Datagram) (hits : List VaultHit) (h : VaultHit) (c : Command)
      → Mem h hits
      → Mem c (hit_commands encode hit_json wake_json f vaults ttl skip batch d h)
      → Mem c (all_hit_commands batch d hits)
  hit_among batch d [] h c m k = absurd (not-mem-nil m)
  hit_among batch d (g ∷ hits) h c m k =
      Or.elim Mem-prop (mem-cons.0 m) (λ e. mem-append_left _ (rw e at k))
        (λ later. mem-append_right _ (hit_among batch d hits h c later k))

  on_shred-reassembler :
      (shred : ParsedDataShred) (d : Datagram) (s : UdpState)
      → (on_shred encode hit_json wake_json f vaults ttl skip shred d s).reassembler
        ≡ (push s.reassembler shred).0
  unfolding on_shred
  on_shred-reassembler shred d s = elim (Option-cases (push s.reassembler shred).1) [
    | inl h ↦ rw (on_shred, h) refl
    | inr (b, h) ↦
        rw (on_shred, h)
          (on_batch-Added b d (record s { reassembler = (push s.reassembler shred).0 })).same_sets
  ]

  Carries-on_datagram :
      (d : Datagram) (shred : ParsedDataShred) (s : UdpState)
      → Carries skip d shred
      → on_datagram encode hit_json wake_json f vaults ttl skip d s
        ≡ on_shred encode hit_json wake_json f vaults ttl skip shred d
            (count_frame encode hit_json wake_json f vaults ttl skip d s)
  unfolding on_datagram packet_of
  Carries-on_datagram d shred s c = rw (on_datagram, parse_data_shred-Carries skip d shred c) refl

  pub Wire-on_datagrams :
      {ds : List Datagram} {ss : List ParsedDataShred} (s : UdpState)
      → Wire skip ds ss
      → (on_datagrams encode hit_json wake_json f vaults ttl skip ds s).reassembler
        ≡ deliver s.reassembler ss
  unfolding on_datagrams on_datagram packet_of count_frame
  Wire-on_datagrams s Wire.quiet = refl
  Wire-on_datagrams s (Wire.carrying {d} {s = shred} {ds} {ss} c w) =
      rw (on_datagrams, Carries-on_datagram d shred s c)
        (Wire-on_datagrams _ w
          ∙ ap (λ r. deliver r ss)
              (on_shred-reassembler shred d
                (count_frame encode hit_json wake_json f vaults ttl skip d s)))
  Wire-on_datagrams s (Wire.ignored {d} {ds} {ss} h w) =
      rw (on_datagrams, on_datagram, h)
        (Wire-on_datagrams (count_frame encode hit_json wake_json f vaults ttl skip d s) w)

  pub on_datagrams-append :
      (ds es : List Datagram) (s : UdpState)
      → on_datagrams encode hit_json wake_json f vaults ttl skip (ds ++ es) s
        ≡ on_datagrams encode hit_json wake_json f vaults ttl skip es
            (on_datagrams encode hit_json wake_json f vaults ttl skip ds s)
  unfolding on_datagrams
  on_datagrams-append [] es s = refl
  on_datagrams-append (d ∷ ds) es s =
      on_datagrams-append ds es (on_datagram encode hit_json wake_json f vaults ttl skip d s)

  -- The datagram that completes a set.
  pub on_datagram-Added :
      (d : Datagram) (last : ParsedDataShred) (batch : DeshredBatch) (s : UdpState)
      → Carries skip d last
      → (push s.reassembler last).1 ≡ some batch
      → (let t = on_datagram encode hit_json wake_json f vaults ttl skip d s in
          (t.redis ≡ s.redis ++ (record_shred_frame f d.ts ++ batch_commands batch d))
          × (t.stats.vault_hits % 2 ^ 64
              ≡ (s.stats.vault_hits + length (scan_hits encode vaults batch.bytes)) % 2 ^ 64))
  unfolding on_shred count_frame
  on_datagram-Added d last batch s c h =
      let counted = count_frame encode hit_json wake_json f vaults ttl skip d s in
      let a =
        on_batch-Added batch d (record counted { reassembler = (push s.reassembler last).0 }) in
      rw (Carries-on_datagram d last s c, on_shred, h)
        (
          a.sent ∙ append_assoc s.redis (record_shred_frame f d.ts) (batch_commands batch d),
          a.counted,
        )
