-- ===== src/Titan/Session/Requests.antt =====
-- The steps of a session that only send requests to Titan: they send no command to Redis.
use feed_mux.Prelude.{ℕ, suc, ◌≡◌, refl, ◌∙◌, List, [], ◌∷◌, Bool-cases, Option-cases, inl, inr}
use feed_mux.Config.{Pubkey}
use feed_mux.Titan.Registry.{register_pending_request}
use feed_mux.Titan.Request.{ClientRequestData, get_info, quote_stream_request}
use feed_mux.Titan.Session.{
  Shared, Script, send_request, subscribe_size, subscribe_hunt_streams, send_get_info,
}

pub send_request_redis :
    (script : Script) (id : ℕ) (request : ClientRequestData) (s : Shared)
    → (send_request script id request s).0.redis ≡ s.redis
unfolding send_request
send_request_redis script id request s =
    elim (Option-cases (script.encoding (record { id = id; body = request }))) [
      | inr (e, h) ↦ rw (send_request, h) refl
      | inl h ↦ elim (Option-cases (script.send id)) [
        | inr (e, k) ↦ rw (send_request, h, k) refl
        | inl k ↦ rw (send_request, h, k) refl
      ]
    ]

pub send_get_info_redis :
    (script : Script) (s : Shared) → (send_get_info script s).0.redis ≡ s.redis
unfolding send_get_info
send_get_info_redis script s = elim (Bool-cases (script.allow 1)) [
  | inl h ↦ rw (send_get_info, h) (send_request_redis script 1 get_info s)
  | inr h ↦ rw (send_get_info, h) refl
]

pub subscribe_size_redis :
    (script : Script) (wallet : Pubkey) (id amount : ℕ) (s : Shared)
    → (subscribe_size script wallet id amount s).0.redis ≡ s.redis
unfolding subscribe_size
subscribe_size_redis script wallet id amount s = elim (Bool-cases (script.allow id)) [
  | inl h ↦
      rw (subscribe_size, h)
        (send_request_redis script id (quote_stream_request wallet amount)
          (record s { registry = register_pending_request s.registry id amount }))
  | inr h ↦ rw (subscribe_size, h) refl
]

pub subscribe_hunt_streams_redis :
    (script : Script) (wallet : Pubkey) (id : ℕ) (amounts : List ℕ) (s : Shared)
    → (subscribe_hunt_streams script wallet id amounts s).0.redis ≡ s.redis
unfolding subscribe_hunt_streams
subscribe_hunt_streams_redis script wallet id [] s = refl
subscribe_hunt_streams_redis script wallet id (amount ∷ amounts) s =
    let first = subscribe_size script wallet id amount s in
    let same = subscribe_size_redis script wallet id amount s in
    elim (Option-cases first.1) [
      | inr (e, h) ↦ rw (subscribe_hunt_streams, h) same
      | inl h ↦
          rw (subscribe_hunt_streams, h)
            (subscribe_hunt_streams_redis script wallet (suc id) amounts first.0 ∙ same)
    ]
