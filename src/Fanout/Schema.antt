-- ===== src/Fanout/Schema.antt =====
-- Which keys the fan-out writes, and with what time to live.
use feed_mux.Prelude.{
  ◌≤◌, ◌≡◌, true, false, Option, none, arith, Text, codes, starts_with, Result, ok, All, ◌↔◌,
}
use feed_mux.Fanout.{
  Command, set, set_ex, incr, del, publish_to, RedisFanout, PublishResult,
  reset_titan_state_at_boot, reset_shred_state_at_boot, heartbeat, set_titan_upstream_up,
  set_triton_upstream_up, set_shred_upstream_up, record_titan_decode_error, record_titan_message,
  publish_titan_hop1, publish_titan_size_board, record_shred_frame, record_shred_deshred,
  publish_shred_hit, record_triton_frame, publish,
}
use feed_mux.Fanout.Silence.{Call, reset_titan, message, commands}
use feed_mux.Fanout.Keys

-- A write under "mux:", with a positive time to live if it has one, or a message on the channel.
abbrev pub IsOurs : RedisFanout → Command → Type 0
IsOurs f (set k v) = starts_with k (codes "mux:") ≡ true
IsOurs f (set_ex k v ttl) = (starts_with k (codes "mux:") ≡ true) × (1 ≤ ttl)
IsOurs f (incr k n) = starts_with k (codes "mux:") ≡ true
IsOurs f (del k) = starts_with k (codes "mux:") ≡ true
IsOurs f (publish_to channel v) = channel ≡ f.channel

-- Whatever the call, each command is a write to a key under "mux:", with a time to live of at least
-- one second where it expires (also for a configured 0), or a PUBLISH on the configured channel.
pub commands-IsOurs : (f : RedisFanout) (c : Call) → All (IsOurs f) (commands f c)
unfolding reset_titan_state_at_boot reset_shred_state_at_boot record_titan_decode_error heartbeat
    record_triton_frame record_shred_frame set_titan_upstream_up set_triton_upstream_up
    set_shred_upstream_up record_titan_message publish_titan_hop1 publish_titan_size_board
    record_shred_deshred publish_shred_hit publish Keys.hop1_row_key
commands-IsOurs f reset_titan = ground arith
commands-IsOurs f (message o now) = ground arith
commands-IsOurs f _ = ground arith

module _ {P : Type 0} (f : RedisFanout) (to_json : P → Result Text Text) (payload : P)
    (reply : Option Text) where
  -- `publish` reports a delivery exactly when the fan-out is live, the payload serializes and the
  -- server accepts it.
  pub publish_delivers :
      (r : PublishResult)
      → (publish f to_json payload reply).1 ≡ ok r
      → ((r.delivered ≡ true) ↔ ((f.dry_run ≡ false) × (f.conn ≡ true) × (reply ≡ none)))
        × (r.channel ≡ f.channel)
        × (r.dry_run ≡ f.dry_run)
  unfolding publish
  publish_delivers r h =
      ((λ d. ground (arith, h, d), λ c. ground (arith, h, c)), ground (arith, h), ground (arith, h))
