-- ===== src/Fanout/Keys.antt =====
-- `mux_keys` of src/redis_fanout.rs: the keys that Bot 350 reads.
use feed_mux.Prelude.{ℕ, ◌++◌, ◌∷◌, Text, codes}
use feed_mux.Prelude.Decimal.{to_string}

abbrev pub titan_frames : Text
titan_frames = codes "mux:titan:frames"

abbrev pub titan_decoded : Text
titan_decoded = codes "mux:titan:decoded"

abbrev pub titan_errors : Text
titan_errors = codes "mux:titan:errors"

abbrev pub titan_served : Text
titan_served = codes "mux:titan:served"

abbrev pub titan_hop1_served : Text
titan_hop1_served = codes "mux:titan:hop1_served"

abbrev pub titan_size_board : Text
titan_size_board = codes "mux:titan:size_board"

abbrev pub titan_fell_through : Text
titan_fell_through = codes "mux:titan:fell_through"

abbrev pub titan_pairs_live : Text
titan_pairs_live = codes "mux:titan:pairs_live"

abbrev pub titan_last_frame_ms : Text
titan_last_frame_ms = codes "mux:titan:last_frame_ms"

abbrev pub titan_freshest_ms : Text
titan_freshest_ms = codes "mux:titan:freshest_ms"

abbrev pub meta_heartbeat_ms : Text
meta_heartbeat_ms = codes "mux:meta:heartbeat_ms"

abbrev pub meta_titan_up : Text
meta_titan_up = codes "mux:meta:titan_up"

abbrev pub meta_triton_up : Text
meta_triton_up = codes "mux:meta:triton_up"

abbrev pub triton_frames : Text
triton_frames = codes "mux:triton:frames"

abbrev pub triton_last_frame_ms : Text
triton_last_frame_ms = codes "mux:triton:last_frame_ms"

abbrev pub meta_shred_up : Text
meta_shred_up = codes "mux:meta:shred_up"

abbrev pub shred_shreds : Text
shred_shreds = codes "mux:shred:shreds"

abbrev pub shred_txs_deshredded : Text
shred_txs_deshredded = codes "mux:shred:txs_deshredded"

abbrev pub shred_vault_hits : Text
shred_vault_hits = codes "mux:shred:vault_hits"

abbrev pub shred_last_ms : Text
shred_last_ms = codes "mux:shred:last_ms"

abbrev pub shred_last_hit_ms : Text
shred_last_hit_ms = codes "mux:shred:last_hit_ms"

abbrev pub shred_hit : Text
shred_hit = codes "mux:shred:hit"

-- `format!("mux:titan:hop1:{pair}:{size_lamports}")`
unfoldable pub hop1_row_key : Text → ℕ → Text
hop1_row_key pair size_lamports =
    codes "mux:titan:hop1:" ++ (pair ++ (b':' ∷ to_string size_lamports))
