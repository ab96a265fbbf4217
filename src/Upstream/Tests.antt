-- ===== src/Upstream/Tests.antt =====
-- The UDP loop and the live states at concrete inputs.
use feed_mux.Prelude.{
  ℕ, ◌*◌, refl, arith, List, [], ◌∷◌, true, false, Option, none, some, if◌then◌else◌, Text, codes,
  text_eq, Result, ok, replicate,
}
use feed_mux.Config.{Config, Base58Decode, from_env, Env}
use feed_mux.Fanout.{ShredHitRow, FeedPayload}
use feed_mux.Fanout.Tally.{live}
use feed_mux.Fanout.Store.{store_server}
use feed_mux.Shred.VaultWatch.{VaultWatchSet}
use feed_mux.Upstream.TritonShred.{WakeRow, Datagram, new_stats, run_udp_loop}
use feed_mux.Upstream.TritonShred.InStep.{InStep}
use feed_mux.Upstream.TritonShred.Agree.{run_udp_loop-InStep}
use feed_mux.Upstream.Live.{Flags}

abbrev identity : List ℕ → Text
identity v = v

abbrev hit_json : ShredHitRow → Result Text Text
hit_json row = ok row.vault

abbrev wake_json : FeedPayload WakeRow → Result Text Text
wake_json payload = ok payload.event

abbrev watch : VaultWatchSet
watch = record { vaults = replicate 32 5 ∷ []; vault_labels = replicate 32 5 ∷ [] }

-- A datagram too short for a shred.
abbrev datagram : Datagram
datagram = record {
  bytes = 1 ∷ 2 ∷ 3 ∷ [];
  src = codes "10.0.0.1:9000";
  ts = 1000;
  now_text = codes "2025-01-01T00:00:00Z";
  reply = none;
}

run_udp_loop-InStep_example :
    InStep store_server
      (λ key. none)
      (2 * 258)
      (run_udp_loop identity hit_json wake_json
        (live (codes "feed:350"))
        watch
        2
        0
        true
        (datagram ∷ datagram ∷ [])
        new_stats)
run_udp_loop-InStep_example =
    run_udp_loop-InStep store_server (λ key. none) identity hit_json wake_json (codes "feed:350")
      watch 2 0 (λ row. (row.vault, refl)) (datagram ∷ datagram ∷ []) (omega arith)

abbrev env : Env
env key =
    if text_eq key (codes "DRY_RUN")
    then some (codes "false")
    else if text_eq key (codes "ENABLE_TITAN_WS")
    then some (codes "1")
    else if text_eq key (codes "TITAN_WS_URL")
    then some (codes "wss://titan")
    else if text_eq key (codes "TITAN_WALLET_PUBKEY")
    then some (codes "wallet")
    else none

abbrev decode : Base58Decode
decode s = some (replicate 32 7)

abbrev titan_config : Config
titan_config = from_env decode env

abbrev shred_config : Config
shred_config = record titan_config {
  enable_triton_shred = true;
  dry_run = false;
  shred_watch_vaults = replicate 32 7 ∷ [];
}

abbrev port : Text → Option ℕ
port bind = some 8003

abbrev flags : Flags
flags = record {
  titan_connected = true;
  triton_connected = false;
  triton_auth_blocked = false;
  shred_bound = true;
}
