-- ===== src/Upstream/TritonShred/Tests.antt =====
-- An FEC set of two shreds, with a coding shred and a shred of another set between them, and a vault
-- that is cut in two by the boundary of the shreds.
use mathlib.Core.List.{Mem, mem-cons_self}
use mathlib.Core.List.Perm
use feed_mux.Prelude.{
  inl, inr, ℕ, ◌≡◌, ◌<◌, ◌≤◌, refl, arith, length-append, Bool, true, false, List, [], ◌∷◌, ◌++◌,
  none, Text, codes, Result, ok, replicate, length,
}
use feed_mux.Fanout.Keys
use feed_mux.Fanout.{Command, set_ex, publish_to, ShredHitRow, FeedPayload, record_shred_frame}
use feed_mux.Fanout.Tally.{live}
use feed_mux.Prelude.TreeMap.{insert, lookup, remove}
use feed_mux.Shred.Parse.{ParsedDataShred, parse_data_shred, shred_kind}
use feed_mux.Shred.Parse.RoundTrip.{Frame, IsFrame, encode}
use feed_mux.Shred.Reassembly.{new, push, deshred, trim_old_sets, concat}
use feed_mux.Shred.Reassembly.Refine.{has_room}
use feed_mux.Shred.Reassembly.Refine.Delivered.{Completes}
use feed_mux.Shred.VaultWatch.{VaultWatchSet}
use feed_mux.Upstream.TritonShred.{WakeRow, Datagram, received, new_stats, run_udp_loop}
use feed_mux.Upstream.TritonShred.Wire.{Carries, Wire}
use feed_mux.Upstream.TritonShred.Added.{batch_commands, batch_of}
use feed_mux.Upstream.TritonShred.Pipeline.{run_udp_loop-Completes, run_udp_loop-vault_hit}

abbrev identity : List ℕ → Text
identity v = v

abbrev hit_json : ShredHitRow → Result Text Text
hit_json row = ok row.vault

abbrev wake_json : FeedPayload WakeRow → Result Text Text
wake_json payload = ok payload.event

abbrev vault : List ℕ
vault = replicate 32 5

abbrev watch : VaultWatchSet
watch = record { vaults = vault ∷ []; vault_labels = vault ∷ [] }

abbrev shred : ℕ → ℕ → List ℕ → Bool → ParsedDataShred
shred set index payload complete = record {
  slot = 1;
  index = index;
  fec_set_index = set;
  data_complete = complete;
  last_in_slot = false;
  payload = payload;
}

abbrev first : ParsedDataShred
first = shred 9 0 (7 ∷ replicate 15 5) false

abbrev other : ParsedDataShred
other = shred 4 0 (codes "x") true

abbrev last : ParsedDataShred
last = shred 9 1 (replicate 17 5 ++ 8 ∷ []) true

abbrev frame : ParsedDataShred → Frame
frame s = record {
  signature = replicate 64 0;
  variant = 0x96;
  version = 0;
  parent = 0;
  shred = s;
  proof = [];
}

frame-IsFrame :
    (s : ParsedDataShred)
    → (s.slot < 256) × (s.index < 256) × (s.fec_set_index < 256)
    → 0 < length s.payload
    → length s.payload ≤ 20
    → IsFrame (frame s)
frame-IsFrame s (slot, index, fec) nonempty short = record {
  signed = refl;
  data_variant = inr (inr (inr refl));
  slot_width = omega arith;
  index_width = omega arith;
  fec_width = omega arith;
  has_payload = nonempty;
  size_width = omega (arith, length-append s.payload []);
  proof_size = inl (refl, omega (arith, short));
}

-- One byte of the provider, then the frame.
abbrev datagram : List ℕ → Datagram
datagram bytes = record {
  bytes = 1 ∷ bytes;
  src = codes "10.0.0.1:9000";
  ts = 1000;
  now_text = codes "2025-01-01T00:00:00Z";
  reply = none;
}

frame-Carries :
    (s : ParsedDataShred)
    → IsFrame (frame s)
    → length s.payload ≤ 20
    → Carries 1 (datagram (encode (frame s) [])) s
frame-Carries s valid short = record {
  frame = frame s;
  valid = valid;
  same_shred = refl;
  prefix = 1 ∷ [];
  rest = [];
  width = refl;
  written = refl;
  fits = omega (arith, short, length-append s.payload [], length-append (s.payload ++ []) []);
}

abbrev datagrams : List Datagram
datagrams =
    datagram (encode (frame other) [])
    ∷ datagram (replicate 64 0 ++ 0x4b ∷ replicate 100 0)
    ∷ datagram (encode (frame first) [])
    ∷ []

abbrev completing : Datagram
completing = datagram (encode (frame last) [])

datagrams-Wire : Wire 1 datagrams (other ∷ first ∷ [])
unfolding parse_data_shred shred_kind received
datagrams-Wire =
    Wire.carrying
      (frame-Carries other
        (frame-IsFrame other (omega arith, omega arith, omega arith) (omega arith) (omega arith))
        (omega arith))
      (Wire.ignored refl (
        Wire.carrying
          (frame-Carries first
            (frame-IsFrame first (omega arith, omega arith, omega arith) (omega arith)
              (omega arith))
            (omega arith))
          Wire.quiet))

set-Completes : Completes (other ∷ first ∷ []) (first ∷ []) last
set-Completes = record {
  waits = ((λ e. ground arith), ((λ e. refl), tt));
  same_shreds = Perm.refl _;
  ascending = ((refl, tt), (tt, tt));
  complete = refl;
  has_payload = omega arith;
}

has_room_here : has_room (new 256) (other ∷ first ∷ last ∷ []) ≡ true
unfolding new push deshred trim_old_sets concat insert lookup remove
has_room_here = refl

last-Carries : Carries 1 completing last
last-Carries =
    frame-Carries last
      (frame-IsFrame last (omega arith, omega arith, omega arith) (omega arith) (omega arith))
      (omega arith)

-- The set's batch, and the vault across the boundary of its shreds.
run_udp_loop-Completes_example :
    (run_udp_loop identity hit_json wake_json
      (live (codes "feed"))
      watch
      2
      1
      true
      (datagrams ++ completing ∷ [])
      new_stats).redis
    ≡ (run_udp_loop identity hit_json wake_json
        (live (codes "feed"))
        watch
        2
        1
        true
        datagrams
        new_stats).redis
      ++ (record_shred_frame (live (codes "feed")) 1000
          ++ batch_commands identity hit_json wake_json
              (live (codes "feed"))
              watch
              2
              1
              (batch_of last (first ∷ []))
              completing)
run_udp_loop-Completes_example =
    (run_udp_loop-Completes identity hit_json wake_json (live (codes "feed")) watch 2 1 datagrams
      completing new_stats (other ∷ first ∷ []) (first ∷ []) last datagrams-Wire last-Carries
      set-Completes has_room_here).0

abbrev sent : List Command
sent =
    (run_udp_loop identity hit_json wake_json (live (codes "feed")) watch 2 1 true
      (datagrams ++ completing ∷ []) new_stats).redis

run_udp_loop-vault_hit_example :
    Mem (set_ex Keys.shred_hit vault 2) sent
    × Mem (publish_to (codes "feed") (codes "shred.vault_hit")) sent
run_udp_loop-vault_hit_example =
    run_udp_loop-vault_hit identity hit_json wake_json (codes "feed") watch 2 1 datagrams completing
      new_stats (other ∷ first ∷ []) (first ∷ []) last vault vault (codes "shred.vault_hit")
      datagrams-Wire last-Carries set-Completes has_room_here (refl, tt) mem-cons_self
      (7 ∷ [], 8 ∷ [], refl) refl refl
