-- ===== src/Shred/Tests.antt =====
-- src/shred/ at concrete inputs: the cases of its own tests, and the theorems applied.
use mathlib.Core.List.{Mem, mem-cons_self}
use mathlib.Core.List.Perm
use feed_mux.Prelude.{
  inl, inr, ℕ, ◌+◌, ◌^◌, ◌≤◌, ◌<◌, ◌≡◌, refl, Bool, true, false, List, [], ◌∷◌, ◌++◌, map, none,
  some, arith, replicate, Text, codes, text_eq, if◌then◌else◌,
}
use feed_mux.Prelude.TreeMap.{lookup}
use feed_mux.Prelude.Words.{trim, split}
use feed_mux.Config.{Base58Decode, Env, parse_wallet_pubkey, parse_shred_watch_vaults_from_env}
use feed_mux.Shred.VaultList.{
  parse_vault_list, strict_vaults_of, parse_vault_list-parse_shred_watch_vaults_from_env,
}
use feed_mux.Shred.Parse.{
  ParsedDataShred, parse_data_shred, shred_kind, slice, from_le_bytes, merkle_payload_end,
  declared_size, parsed, byte_at,
}
use feed_mux.Shred.Parse.Bounds.{parse_data_shred_bounds}
use feed_mux.Shred.Parse.RoundTrip.{Frame, IsFrame, encode, parse_data_shred-encode}
use feed_mux.Shred.Reassembly.{new, push, concat}
use feed_mux.Shred.Reassembly.Bounded.{IsWellFormed, new-IsWellFormed, push-IsWellFormed}
use feed_mux.Shred.Reassembly.Order.{deliver}
use feed_mux.Shred.Reassembly.Order.Batch.{deliver-batch}
use feed_mux.Shred.VaultWatch.{VaultWatchSet, scan_hits, count_transactions_estimate}
use feed_mux.Shred.VaultWatch.Scan.{vault_of, scan_hits_iff}
use feed_mux.Shred.VaultWatch.Estimate.{count_transactions_estimate-nonzero}

abbrev sample_shred : ParsedDataShred
sample_shred = record {
  slot = 42;
  index = 7;
  fec_set_index = 3;
  data_complete = false;
  last_in_slot = false;
  payload = codes "hello-shred";
}

abbrev sample_frame : Frame
sample_frame = record {
  signature = replicate 64 0;
  variant = 0x96;
  version = 0;
  parent = 0;
  shred = sample_shred;
  proof = [];
}

-- `parses_data_shred_headers_and_payload`
parses_data_shred_headers_and_payload :
    parse_data_shred (encode sample_frame []) ≡ some sample_shred
unfolding parse_data_shred shred_kind slice from_le_bytes merkle_payload_end declared_size parsed
    byte_at
parses_data_shred_headers_and_payload = refl

-- `rejects_short_packets`
rejects_short_packets : parse_data_shred (replicate 32 0) ≡ none
unfolding parse_data_shred
rejects_short_packets = refl

sample_frame-IsFrame : IsFrame sample_frame
sample_frame-IsFrame = record {
  signed = refl;
  data_variant = inr (inr (inr refl));
  slot_width = omega arith;
  index_width = omega arith;
  fec_width = omega arith;
  has_payload = omega arith;
  size_width = omega arith;
  proof_size = inl (refl, omega arith);
}

parse_data_shred-encode_example :
    parse_data_shred (encode sample_frame (1 ∷ 2 ∷ [])) ≡ some sample_shred
parse_data_shred-encode_example =
    parse_data_shred-encode sample_frame sample_frame-IsFrame (1 ∷ 2 ∷ [])

parse_data_shred_bounds_example :
    (42 < 2 ^ 64) × (7 < 2 ^ 32) × (3 < 2 ^ 32) × (0 < 11) × (11 + 88 ≤ 99)
parse_data_shred_bounds_example =
    parse_data_shred_bounds (encode sample_frame []) sample_shred (omega arith)
      parses_data_shred_headers_and_payload

abbrev part : ℕ → Text → Bool → ParsedDataShred
part index payload complete = record {
  slot = 1;
  index = index;
  fec_set_index = 9;
  data_complete = complete;
  last_in_slot = false;
  payload = payload;
}

-- Two shreds that arrive in the wrong order, then the one that completes the set.
deliver-batch_example :
    push
      (deliver (new 8) (part 1 (codes "def") false ∷ part 0 (codes "abc") false ∷ []))
      (part 2 (codes "g") true)
    ≡ (new 8, some (record { slot = 1; fec_set_index = 9; bytes = codes "abcdefg" }))
unfolding new lookup concat
deliver-batch_example =
    deliver-batch (new 8) (part 1 (codes "def") false ∷ part 0 (codes "abc") false ∷ [])
      (part 0 (codes "abc") false ∷ part 1 (codes "def") false ∷ []) (part 2 (codes "g") true)
      (new-IsWellFormed 8) (omega arith) refl ((refl, refl), ((refl, refl), tt)) (Perm.swap _ _ [])
      ((refl, (refl, tt)), ((refl, tt), (tt, tt))) refl (omega arith)

push-IsWellFormed_example : IsWellFormed (push (new 8) (part 0 (codes "abc") false)).0
push-IsWellFormed_example =
    push-IsWellFormed (new 8) (part 0 (codes "abc") false) (new-IsWellFormed 8)

abbrev vault : List ℕ
vault = replicate 32 5

abbrev identity : List ℕ → Text
identity v = v

abbrev watch : VaultWatchSet
watch = record { vaults = vault ∷ []; vault_labels = vault ∷ [] }

-- `scan_finds_embedded_vault`
scan_hits_iff_example :
    Mem vault (map vault_of (scan_hits identity watch (0 ∷ 0 ∷ (vault ++ 0 ∷ []))))
scan_hits_iff_example =
    (scan_hits_iff identity watch (0 ∷ 0 ∷ (vault ++ 0 ∷ [])) vault (refl, tt)).1
      (mem-cons_self, (0 ∷ 0 ∷ [], 0 ∷ [], refl))

count_transactions_estimate-nonzero_example : count_transactions_estimate (replicate 320 1) ≡ 256
count_transactions_estimate-nonzero_example =
    count_transactions_estimate-nonzero (replicate 320 1) (omega arith) (omega arith)

abbrev known_vault : Base58Decode
known_vault s = if text_eq s (codes "v") then some vault else none

abbrev vault_env : Env
vault_env key = some (codes " v,, v")

parse_vault_list-parse_shred_watch_vaults_from_env_example :
    parse_shred_watch_vaults_from_env known_vault vault_env ≡ vault ∷ vault ∷ []
unfolding parse_vault_list trim split parse_wallet_pubkey strict_vaults_of
parse_vault_list-parse_shred_watch_vaults_from_env_example =
    parse_vault_list-parse_shred_watch_vaults_from_env known_vault vault_env (codes " v,, v")
      (vault ∷ vault ∷ []) refl refl refl
