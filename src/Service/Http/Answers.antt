-- ===== src/Service/Http/Answers.antt =====
-- What the two endpoints answer.
use feed_mux.Prelude.{
  ℕ, ◌≡◌, ◌≢◌, arith, List, [], ◌∷◌, Bool, true, false, ◌&&◌, ◌||◌, not, Option, some, is_some,
  is_ok, if◌then◌else◌, Text, Result, ok, err, get_elem?, Result-cases, inl, inr,
}
use feed_mux.Config.{Config, Base58Decode}
use feed_mux.Fanout.{Command, publish_to, RedisFanout, FeedPayload, PublishResult}
use feed_mux.Fanout
use feed_mux.Upstream.TritonShred.{ShredStats, snapshot}
use feed_mux.Upstream.Live.{UpstreamStatus, statuses, shred_status, shred_mode, resolve_shred}
use feed_mux.Service.Http.{
  PublishRequest, PublishResponse, payload_of, publish, health, shred_health, from_snapshot,
}

-- What a response says of the result; nothing for an error.
abbrev pub delivered : Result ℕ PublishResponse → Bool
delivered (ok response) = response.result.delivered
delivered (err status) = false

abbrev pub status_of : Result ℕ PublishResponse → ℕ
status_of (ok response) = 200
status_of (err status) = status

-- The messages that a request leads to, for what the serializer makes of its payload.
abbrev pub messages : RedisFanout → Result Text Text → List Command
messages fanout (ok json) =
    if not fanout.dry_run && fanout.conn then publish_to fanout.channel json ∷ [] else []
messages fanout (err e) = []

-- A request is answered with success exactly where its payload can be serialized and there is a dry
-- run, or a connection on which Redis takes the message, and with 503 otherwise. The response
-- reports the message as delivered exactly where Redis took it outside a dry run. The message is
-- sent, once and on the configured channel, exactly where it can be serialized and a connection
-- exists outside a dry run.
pub publish_lem :
    {J : Type 0} (to_json : FeedPayload J → Result Text Text) (fanout : RedisFanout)
    (req : PublishRequest J) (now_text : Text) (reply : Option Text)
    → (status_of (publish to_json fanout req now_text reply).1 ≡ (
        if is_ok (to_json (payload_of req now_text))
          && (fanout.dry_run || (fanout.conn && not (is_some reply)))
        then 200
        else 503))
      × (delivered (publish to_json fanout req now_text reply).1 ≡ (
          is_ok (to_json (payload_of req now_text))
          && not fanout.dry_run
          && fanout.conn
          && not (is_some reply)))
      × ((publish to_json fanout req now_text reply).0
          ≡ messages fanout (to_json (payload_of req now_text)))
unfolding publish Fanout.publish
publish_lem to_json fanout req now_text reply =
    elim (Result-cases (to_json (payload_of req now_text))) [
      | inl (json, h) ↦ rw (publish, Fanout.publish, h) (ground arith, ground arith, ground arith)
      | inr (e, h) ↦ rw (publish, Fanout.publish, h) (ground arith, ground arith, ground arith)
    ]

-- Where the health shows the shred listener as connected, the listener is enabled and bound, watches
-- some vault, and no dry run is on, by the other parts of the same response.
pub health-shred_status :
    (decode : Base58Decode) (port : Text → Option ℕ) (config : Config)
    (titan_connected triton_connected auth_blocked : Bool) (stats : ShredStats) (now_ms : ℕ)
    (now_text : Text) (u : UpstreamStatus)
    → get_elem?
        (health decode port config titan_connected triton_connected auth_blocked stats now_ms
          now_text).upstreams
        3
      ≡ some u
    → u.connected ≡ true
    → let r =
        health decode port config titan_connected triton_connected auth_blocked stats now_ms
          now_text in
      (r.shred.enabled ≡ true) × (r.shred.bound ≡ true) × (r.shred.vaults ≢ 0) × (r.dry_run ≡ false)
unfolding health shred_health from_snapshot snapshot statuses shred_status shred_mode resolve_shred
health-shred_status decode port config a b c stats now_ms now_text u h k = ground (arith, h, k)
