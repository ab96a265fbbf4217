-- ===== src/Upstream/TritonShred/Pipeline.antt =====
-- From the datagrams on the wire to the commands in Redis: the parser, the reassembler, the scan for
-- vaults and the fan-out as the listener puts them together.
use mathlib.Core.List.{Mem, mem-append_right, mem-cons_self, mem-cons_of_mem}
use feed_mux.Prelude.{
  max, ok, codes, refl, Option, none, ℕ, ◌+◌, ◌%◌, ◌^◌, ◌≡◌, ap, ◌∙◌, true, List, [], ◌∷◌, ◌++◌,
  some, All, length, Text, Result,
}
use feed_mux.Fanout.{
  Command, set_ex, publish_to, RedisFanout, ShredHitRow, FeedPayload, record_shred_frame,
  publish_shred_hit, publish,
}
use feed_mux.Fanout.Keys
use feed_mux.Fanout.Tally.{live}
use feed_mux.Shred.Parse.{ParsedDataShred}
use feed_mux.Shred.Reassembly.{new, push}
use feed_mux.Shred.Reassembly.Order.{deliver}
use feed_mux.Shred.Reassembly.Assembly.{joined}
use feed_mux.Shred.Reassembly.Refine.{has_room}
use feed_mux.Shred.Reassembly.Refine.Delivered.{Completes, push-Completes}
use feed_mux.Shred.VaultWatch.{VaultWatchSet, scan_hits}
use feed_mux.Shred.VaultWatch.Scan.{Occurs, hit_for, mem-scan_hits}
use feed_mux.Upstream.TritonShred.Wire.{Carries, Wire}
use feed_mux.Upstream.TritonShred.{
  ShredStats, WakeRow, Datagram, UdpState, hit_commands, on_datagrams, run_udp_loop,
}
use feed_mux.Upstream.TritonShred.Added.{
  batch_commands, batch_of, hit_among, Wire-on_datagrams, on_datagrams-append, on_datagram-Added,
}

module _ (encode : List ℕ → Text) (hit_json : ShredHitRow → Result Text Text)
    (wake_json : FeedPayload WakeRow → Result Text Text) (f : RedisFanout) (vaults : VaultWatchSet)
    (ttl skip : ℕ) where
  module _ (ds : List Datagram) (d : Datagram) (stats : ShredStats)
      (ss ordered : List ParsedDataShred) (last : ParsedDataShred) where
    abbrev before : UdpState
    before = run_udp_loop encode hit_json wake_json f vaults ttl skip true ds stats

    abbrev after : UdpState
    after = run_udp_loop encode hit_json wake_json f vaults ttl skip true (ds ++ d ∷ []) stats

    -- A socket that binds; datagrams that carry the shreds of an FEC set in any order and fit the buffer
    -- of 1232 bytes, with those of other sets and datagrams of which the parser reads no data shred
    -- between them; then the datagram that completes the set, which fits the buffer as well.
    -- While no set is dropped, this one sends the commands of a frame, those of a batch whose bytes are
    -- the payloads of the set in the order of their indices, and those of each vault found in them, and
    -- nothing else; and it adds the number of these vaults to the counter of hits, which wraps at 2^64.
    pub run_udp_loop-Completes :
        Wire skip ds ss
        → Carries skip d last
        → Completes ss ordered last
        → has_room (new 256) (ss ++ last ∷ []) ≡ true
        → (after.redis
            ≡ before.redis
              ++ (record_shred_frame f d.ts
                  ++ batch_commands encode hit_json wake_json f vaults ttl skip
                      (batch_of last ordered)
                      d))
          × (after.stats.vault_hits % 2 ^ 64
              ≡ (before.stats.vault_hits
                  + length (scan_hits encode vaults (joined (ordered ++ last ∷ []))))
                % 2 ^ 64)
    unfolding run_udp_loop on_datagrams
    run_udp_loop-Completes w c whole room =
        let boot = run_udp_loop encode hit_json wake_json f vaults ttl skip true [] stats in
        let reached : before.reassembler ≡ deliver (new 256) ss =
          Wire-on_datagrams encode hit_json wake_json f vaults ttl skip boot w in
        let given : (push before.reassembler last).1 ≡ some (batch_of last ordered) =
          ap (λ r. (push r last).1) reached ∙ push-Completes ss ordered last whole 256 room in
        rw (on_datagrams-append encode hit_json wake_json f vaults ttl skip ds (d ∷ []) boot) (
          on_datagram-Added encode hit_json wake_json f vaults ttl skip d last
            (batch_of last ordered) before c given)

    -- Under the same conditions, each command for a watched vault found is sent to Redis.
    run_udp_loop-hit_commands :
        (v : List ℕ) (c : Command)
        → Wire skip ds ss
        → Carries skip d last
        → Completes ss ordered last
        → has_room (new 256) (ss ++ last ∷ []) ≡ true
        → All (λ u. length u ≡ 32) vaults.vaults
        → Mem v vaults.vaults
        → Occurs v (joined (ordered ++ last ∷ []))
        → Mem c (
            hit_commands encode hit_json wake_json f vaults ttl skip
              (batch_of last ordered)
              d
              (hit_for encode v))
        → Mem c after.redis
    run_udp_loop-hit_commands v c w carries whole room widths watched found sends =
        let batch = batch_of last ordered in
        let hits = scan_hits encode vaults batch.bytes in
        let among = mem-scan_hits encode vaults batch.bytes v widths watched found in
        rw (run_udp_loop-Completes w carries whole room).0 (
          mem-append_right before.redis (
            mem-append_right (record_shred_frame f d.ts) (
              mem-append_right _ (
                hit_among encode hit_json wake_json f vaults ttl skip batch d hits
                  (hit_for encode v) c among sends))))

-- The row and the wake event of a vault.
abbrev pub hit_row : (List ℕ → Text) → ParsedDataShred → Datagram → List ℕ → ShredHitRow
hit_row encode last d v = record {
  schema = codes "mux.shred.hit.v1";
  vault = encode v;
  slot = last.slot;
  fec_set_index = last.fec_set_index;
  src = d.src;
  ts_ms = d.ts;
}

abbrev pub wake_event : (List ℕ → Text) → ParsedDataShred → Datagram → List ℕ → FeedPayload WakeRow
wake_event encode last d v = record {
  event = codes "shred.vault_hit";
  source = codes "triton_shred_udp";
  ts = d.now_text;
  data_json = some (record {
    schema = codes "mux.shred.wake.v1";
    vault = encode v;
    slot = last.slot;
    fec_set_index = last.fec_set_index;
    src = d.src;
  });
}

module _ (encode : List ℕ → Text) (hit_json : ShredHitRow → Result Text Text)
    (wake_json : FeedPayload WakeRow → Result Text Text) (channel : Text) (vaults : VaultWatchSet)
    (ttl skip : ℕ) where
  abbrev announcing : ParsedDataShred → List ParsedDataShred → Datagram → List ℕ → List Command
  announcing last ordered d v =
      hit_commands encode hit_json wake_json (live channel) vaults ttl skip (batch_of last ordered)
        d (hit_for encode v)

  published :
      {P : Type 0} (to_json : P → Result Text Text) (p : P) (event : Text) (reply : Option Text)
      → to_json p ≡ ok event
      → (publish (live channel) to_json p reply).0 ≡ publish_to channel event ∷ []
  unfolding publish
  published to_json p event none h = rw (publish, h) refl
  published to_json p event (some e) h = rw (publish, h) refl

  -- The two messages of a hit are among its commands.
  hit_commands-announce :
      (last : ParsedDataShred) (ordered : List ParsedDataShred) (d : Datagram) (v : List ℕ)
      (row event : Text)
      → hit_json (hit_row encode last d v) ≡ ok row
      → wake_json (wake_event encode last d v) ≡ ok event
      → Mem (set_ex Keys.shred_hit row (max ttl 1)) (announcing last ordered d v)
        × Mem (publish_to channel event) (announcing last ordered d v)
  unfolding hit_commands publish_shred_hit
  hit_commands-announce last ordered d v row event h w =
      rw
        (
          hit_commands,
          publish_shred_hit,
          h,
          published wake_json (wake_event encode last d v) event d.reply w,
        )
        (mem-cons_self, mem-cons_of_mem _ (mem-cons_of_mem _ (mem-cons_of_mem _ mem-cons_self)))

  -- A socket that binds and a live fan-out; datagrams that carry the shreds of an FEC set as for
  -- `run_udp_loop-Completes`, among others and in any order, and the one that completes it, while no
  -- set is dropped. Then a watched vault of 32 bytes that stands in the payloads of the set, put
  -- together in the order of their indices, is announced: Redis is sent the row of the hit under the
  -- key of hits, with the time to live, and the wake event on the channel, where they serialize.
  pub run_udp_loop-vault_hit :
      (ds : List Datagram) (d : Datagram) (stats : ShredStats) (ss ordered : List ParsedDataShred)
      (last : ParsedDataShred) (v : List ℕ) (row event : Text)
      → Wire skip ds ss
      → Carries skip d last
      → Completes ss ordered last
      → has_room (new 256) (ss ++ last ∷ []) ≡ true
      → All (λ u. length u ≡ 32) vaults.vaults
      → Mem v vaults.vaults
      → Occurs v (joined (ordered ++ last ∷ []))
      → hit_json (hit_row encode last d v) ≡ ok row
      → wake_json (wake_event encode last d v) ≡ ok event
      → (let sent =
            (run_udp_loop encode hit_json wake_json
              (live channel)
              vaults
              ttl
              skip
              true
              (ds ++ d ∷ [])
              stats).redis in
          Mem (set_ex Keys.shred_hit row (max ttl 1)) sent × Mem (publish_to channel event) sent)
  run_udp_loop-vault_hit ds d stats ss ordered last v row event w carries whole room widths watched
        found h g =
      let (row_sent, event_sent) = hit_commands-announce last ordered d v row event h g in
      let reaches : (c : Command)
          → Mem c (announcing last ordered d v)
          → Mem c
              (run_udp_loop encode hit_json wake_json (live channel) vaults ttl skip true
                (ds ++ d ∷ []) stats).redis =
        λ c sends.
          run_udp_loop-hit_commands encode hit_json wake_json (live channel) vaults ttl skip ds d
            stats ss ordered last v c w carries whole room widths watched found sends in
      (reaches _ row_sent, reaches _ event_sent)
