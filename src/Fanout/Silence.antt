-- ===== src/Fanout/Silence.antt =====
-- Every call of the fan-out as one type, and when it sends nothing.
use feed_mux.Prelude.{ℕ, ◌≡◌, ◌⊎◌, List, [], Bool, true, false, Option, arith, Text, Result}
use feed_mux.Shred.VaultWatch.{VaultHit}
use feed_mux.Fanout.{
  Command, RedisFanout, TitanMessageOutcome, publish, reset_titan_state_at_boot,
  reset_shred_state_at_boot, heartbeat, set_titan_upstream_up, set_triton_upstream_up,
  set_shred_upstream_up, record_titan_decode_error, record_titan_message, publish_titan_hop1,
  publish_titan_size_board, record_shred_frame, record_shred_deshred, publish_shred_hit,
  record_triton_frame,
}

-- A call, with what the serializer made of its argument and what the server answered to a PUBLISH.
pub data Call : Type 0 where
  reset_titan reset_shred decode_error : Call
  beat triton_frame shred_frame : ℕ → Call
  titan_up triton_up shred_up : Bool → Call
  message : TitanMessageOutcome → ℕ → Call
  hop1 : Result Text Text → Text → ℕ → ℕ → Call
  size_board : Result Text Text → Call
  deshredded : ℕ → ℕ → Call
  hit : Result Text Text → VaultHit → ℕ → ℕ → Text → ℕ → ℕ → Call
  event : Result Text Text → Option Text → Call

abbrev pub commands : RedisFanout → Call → List Command
commands f reset_titan = reset_titan_state_at_boot f
commands f reset_shred = reset_shred_state_at_boot f
commands f decode_error = record_titan_decode_error f
commands f (beat now) = heartbeat f now
commands f (triton_frame now) = record_triton_frame f now
commands f (shred_frame ts) = record_shred_frame f ts
commands f (titan_up up) = set_titan_upstream_up f up
commands f (triton_up up) = set_triton_upstream_up f up
commands f (shred_up up) = set_shred_upstream_up f up
commands f (message outcome now) = record_titan_message f outcome now
commands f (hop1 json pair size ttl) = publish_titan_hop1 f (λ j. j) json pair size ttl
commands f (size_board json) = publish_titan_size_board f (λ j. j) json
commands f (deshredded count ts) = record_shred_deshred f count ts
commands f (hit json h slot fec src ttl ts) = publish_shred_hit f (λ _. json) h slot fec src ttl ts
commands f (event json reply) = (publish f (λ j. j) json reply).0

-- In a dry run, and without a connection, no call sends a command.
pub commands_silent :
    (f : RedisFanout) (c : Call) → (f.dry_run ≡ true) ⊎ (f.conn ≡ false) → commands f c ≡ []
unfolding reset_titan_state_at_boot reset_shred_state_at_boot record_titan_decode_error heartbeat
    record_triton_frame record_shred_frame set_titan_upstream_up set_triton_upstream_up
    set_shred_upstream_up record_titan_message publish_titan_hop1 publish_titan_size_board
    record_shred_deshred publish_shred_hit publish
commands_silent f reset_titan h = ground (arith, h)
commands_silent f (message o now) h = ground (arith, h)
commands_silent f _ h = ground (arith, h)
