-- ===== src/Service/Start/Ownership.antt =====
-- Which task writes which keys.
pub mod Alone
pub mod Families
pub mod Owners
pub mod Started
use feed_mux.Prelude.{
  ℕ, ◌+◌, ◌%◌, ◌^◌, ◌≡◌, refl, sym, ap, ◌∙◌, arith, List, [], ◌∷◌, ◌++◌, Bool, true, false, ◌||◌,
  Option, Text, codes, text_eq, text_eq_iff, starts_with, Result, All, All-append, any, filter,
  Bool-cases, inl, inr, if◌then◌else◌,
}
use feed_mux.Fanout.{
  Command, set, set_ex, incr, del, publish_to, RedisFanout, FeedPayload, reset_shred_state_at_boot,
  record_titan_decode_error, heartbeat, record_triton_frame, record_shred_frame,
  set_titan_upstream_up, set_triton_upstream_up, set_shred_upstream_up, record_titan_message,
  publish_titan_hop1, publish_titan_size_board, record_shred_deshred, publish_shred_hit,
}
use feed_mux.Fanout
use feed_mux.Fanout.Keys
use feed_mux.Fanout.Silence.{Call, message, event, commands}
use feed_mux.Fanout.Counters.{key_is}
use feed_mux.Titan.Session.Sends.{IsTitanCall, run_live_loop-Kept}
use feed_mux.Upstream.Triton.Sends.{IsTritonCall, run_triton_loop-Kept}
use feed_mux.Upstream.TritonShred.{new_stats}
use feed_mux.Upstream.TritonShred.Sends.{IsShredCall, run_udp_loop-Kept}
use feed_mux.Service.Mock.{MockRow, mock_loop, mock_payload}
use feed_mux.Service.Http.{PublishRequest, payload_of}
use feed_mux.Service.Http
use feed_mux.Service.Start.{Task, titan_live, triton_live, shred_live, heartbeats}
use feed_mux.Service.Start.Tasks.{
  Libraries, Sends, titan_server_sends, triton_server_sends, mock_sends, titan_sends, triton_sends,
  shred_sends, heartbeat_sends, poll_sends, http_sends, Between, ended, from_first, from_second,
  RunsTo, no_task, with_task, requests, beats,
}

abbrev pub titan_key : Text → Bool
titan_key k = starts_with k (codes "mux:titan:") || text_eq k Keys.meta_titan_up

abbrev pub triton_key : Text → Bool
triton_key k = starts_with k (codes "mux:triton:") || text_eq k Keys.meta_triton_up

abbrev pub shred_key : Text → Bool
shred_key k = starts_with k (codes "mux:shred:") || text_eq k Keys.meta_shred_up

abbrev nobody : Text → Bool
nobody k = false

-- The keys that a task may write.
abbrev pub owns : Task → Text → Bool
owns (titan_live url wallet sizes ttl) = titan_key
owns (triton_live url token) = triton_key
owns (shred_live bind vaults ttl skip) = shred_key
owns heartbeats = λ k. text_eq k Keys.meta_heartbeat_ms
owns _ = nobody

-- A message on the channel, or a write of one of the keys.
abbrev pub Within : (Text → Bool) → Command → Type 0
Within p (set k v) = p k ≡ true
Within p (set_ex k v ttl) = p k ≡ true
Within p (incr k n) = p k ≡ true
Within p (del k) = p k ≡ true
Within p (publish_to channel v) = Unit

titan_calls : (f : RedisFanout) (c : Call) → IsTitanCall c → All (Within titan_key) (commands f c)
unfolding record_titan_decode_error set_titan_upstream_up record_titan_message publish_titan_hop1
    publish_titan_size_board Keys.hop1_row_key
titan_calls f (message o now) h = ground arith
titan_calls f _ h = ground (arith, h)

triton_calls :
    (f : RedisFanout) (c : Call) → IsTritonCall c → All (Within triton_key) (commands f c)
unfolding record_triton_frame set_triton_upstream_up Fanout.publish
triton_calls f _ h = ground (arith, h)

shred_calls : (f : RedisFanout) (c : Call) → IsShredCall c → All (Within shred_key) (commands f c)
unfolding reset_shred_state_at_boot set_shred_upstream_up record_shred_frame record_shred_deshred
    publish_shred_hit Fanout.publish
shred_calls f _ h = ground (arith, h)

published :
    (f : RedisFanout) (json : Result Text Text) (reply : Option Text)
    → All (Within nobody) (commands f (event json reply))
unfolding Fanout.publish
published f json reply = ground arith

mock_loop_within :
    (mock_json : FeedPayload MockRow → Result Text Text) (f : RedisFanout) (tick : ℕ)
    (turns : List (Text × Option Text))
    → All (Within nobody) (mock_loop mock_json f tick turns)
unfolding mock_loop Fanout.publish
mock_loop_within mock_json f tick [] = tt
mock_loop_within mock_json f tick ((now_text, reply) ∷ turns) =
    let tick' = (tick + 1) % 2 ^ 64 in
    let payload = mock_payload f tick' now_text in
    All-append (Within nobody) (Fanout.publish f mock_json payload reply).0
      (mock_loop mock_json f tick' turns) (published f (mock_json payload) reply)
      (mock_loop_within mock_json f tick' turns)

module _ (lib : Libraries) (f : RedisFanout) where
  beats_within :
      (times : List ℕ) → All (Within (λ k. text_eq k Keys.meta_heartbeat_ms)) (beats lib f times)
  unfolding heartbeat
  beats_within [] = tt
  beats_within (now ∷ times) =
      All-append (Within (λ k. text_eq k Keys.meta_heartbeat_ms)) (heartbeat f now)
        (beats lib f times) (ground arith) (beats_within times)

  requests_within :
      (rs : List (PublishRequest lib.J × Text × Option Text))
      → All (Within nobody) (requests lib f rs)
  unfolding Http.publish Fanout.publish
  requests_within [] = tt
  requests_within ((req, now_text, reply) ∷ rs) =
      let payload = payload_of req now_text in
      All-append (Within nobody) (Fanout.publish f lib.publish_json payload reply).0
        (requests lib f rs) (published f (lib.publish_json payload) reply) (requests_within rs)

  -- Each task writes only its own keys.
  pub Sends-Within : (t : Task) (cs : List Command) → Sends lib f t cs → All (Within (owns t)) cs
  Sends-Within _ _ titan_server_sends = tt
  Sends-Within _ _ triton_server_sends = tt
  Sends-Within _ _ (mock_sends turns) = mock_loop_within lib.mock_json f 0 turns
  Sends-Within (titan_live url wallet sizes ttl) _ (titan_sends scripts) =
      run_live_loop-Kept f (Within titan_key) (titan_calls f) true lib.base58_decode
        lib.base58_encode lib.row_json lib.doc_json ttl sizes wallet scripts _ tt
  Sends-Within (triton_live url token) _ (triton_sends scripts) =
      run_triton_loop-Kept f (Within triton_key) (triton_calls f) lib.feed_json true url scripts _
        tt
  Sends-Within (shred_live bind vaults ttl skip) _ (shred_sends binds ds) =
      run_udp_loop-Kept f (Within shred_key) (shred_calls f) lib.base58_encode lib.hit_json
        lib.wake_json vaults ttl skip binds ds new_stats
  Sends-Within _ _ (heartbeat_sends times) = beats_within times
  Sends-Within _ _ poll_sends = tt
  Sends-Within _ _ (http_sends rs) = requests_within rs
