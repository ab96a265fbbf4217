-- ===== src/Titan/Session/Outgoing.antt =====
-- Which requests a session has to send, and what comes of each.
use feed_mux.Prelude.{
  ℕ, suc, ◌≡◌, refl, sym, ap, ◌∙◌, ◌⊎◌, inl, inr, Bool, true, false, not, ◌&&◌, List, [], ◌∷◌, ◌++◌,
  Option, none, some, is_some, if◌then◌else◌, Bool-cases, Option-cases, append-nil, append_assoc,
}
use feed_mux.Config.{Pubkey}
use feed_mux.Reconnect.{WsError}
use feed_mux.Titan.Registry.{register_pending_request}
use feed_mux.Titan.Request.{ClientRequest, ClientRequestData, get_info, quote_stream_request}
use feed_mux.Titan.Session.{
  Script, Shared, send_get_info, send_request, subscribe_size, subscribe_hunt_streams,
}

module _ (script : Script) where
  abbrev pub request : ℕ → ClientRequestData → ClientRequest
  request id body = record { id = id; body = body }

  -- The requests that the rate limiter allows, each under the id of its place.
  abbrev pub size_requests : Pubkey → ℕ → List ℕ → List ClientRequest
  size_requests wallet id [] = []
  size_requests wallet id (amount ∷ amounts) =
      if script.allow id
      then request id (quote_stream_request wallet amount) ∷ size_requests wallet (suc id) amounts
      else size_requests wallet (suc id) amounts

  abbrev pub session_requests : Pubkey → List ℕ → List ClientRequest
  session_requests wallet sizes =
      (if script.allow 1 then request 1 get_info ∷ [] else []) ++ size_requests wallet 2 sizes

  abbrev goes_out : ClientRequest → Bool
  goes_out r = not (is_some (script.encoding r)) && not (is_some (script.send r.id))

  -- The requests before the first that cannot be encoded or sent.
  abbrev pub before_failure : List ClientRequest → List ClientRequest
  before_failure [] = []
  before_failure (r ∷ rs) = if goes_out r then r ∷ before_failure rs else []

  -- What came of one request.
  abbrev pub Sent : ClientRequest → Shared → Shared × Option WsError → Type 0
  Sent r s (t, stop) =
      ((goes_out r ≡ true) × (stop ≡ none) × (t.written ≡ s.written ++ (r ∷ [])))
      ⊎ ((goes_out r ≡ false) × ((e : WsError) × (stop ≡ some e)) × (t.written ≡ s.written))

  send_request-Sent :
      (id : ℕ) (body : ClientRequestData) (s : Shared)
      → Sent (request id body) s (send_request script id body s)
  unfolding send_request
  send_request-Sent id body s = elim (Option-cases (script.encoding (request id body))) [
    | inr (e, h) ↦ rw (send_request, h) (inr (refl, (_, refl), refl))
    | inl h ↦ elim (Option-cases (script.send id)) [
      | inr (e, k) ↦ rw (send_request, h, k) (inr (refl, (e, refl), refl))
      | inl k ↦ rw (send_request, h, k) (inl (refl, refl, refl))
    ]
  ]

  subscribe_size-Sent :
      (wallet : Pubkey) (id amount : ℕ) (s : Shared)
      → script.allow id ≡ true
      → Sent
          (request id (quote_stream_request wallet amount))
          s
          (subscribe_size script wallet id amount s)
  unfolding subscribe_size
  subscribe_size-Sent wallet id amount s h =
      rw (subscribe_size, h)
        (send_request-Sent id (quote_stream_request wallet amount)
          (record s { registry = register_pending_request s.registry id amount }))

  subscribe_size_refused :
      (wallet : Pubkey) (id amount : ℕ) (s : Shared)
      → script.allow id ≡ false
      → ((subscribe_size script wallet id amount s).1 ≡ none)
        × ((subscribe_size script wallet id amount s).0.written ≡ s.written)
  unfolding subscribe_size
  subscribe_size_refused wallet id amount s h = rw (subscribe_size, h) (refl, refl)

  pub send_get_info-Sent :
      (s : Shared) → script.allow 1 ≡ true → Sent (request 1 get_info) s (send_get_info script s)
  unfolding send_get_info
  send_get_info-Sent s h = rw (send_get_info, h) (send_request-Sent 1 get_info s)

  pub send_get_info_refused :
      (s : Shared)
      → script.allow 1 ≡ false
      → ((send_get_info script s).1 ≡ none) × ((send_get_info script s).0.written ≡ s.written)
  unfolding send_get_info
  send_get_info_refused s h = rw (send_get_info, h) (refl, refl)

  -- The loop writes its requests up to the first that fails.
  pub subscribe_hunt_streams-written :
      (wallet : Pubkey) (id : ℕ) (amounts : List ℕ) (s : Shared)
      → (subscribe_hunt_streams script wallet id amounts s).0.written
        ≡ s.written ++ before_failure (size_requests wallet id amounts)
  unfolding subscribe_hunt_streams
  subscribe_hunt_streams-written wallet id [] s = rw append-nil
  subscribe_hunt_streams-written wallet id (amount ∷ amounts) s =
      let first = subscribe_size script wallet id amount s in
      let r = request id (quote_stream_request wallet amount) in
      let rest = before_failure (size_requests wallet (suc id) amounts) in
      let all = before_failure (size_requests wallet id (amount ∷ amounts)) in
      elim (Bool-cases (script.allow id)) [
        | inr h ↦
            let (on, w) = subscribe_size_refused wallet id amount s h in
            let left_out : rest ≡ all = rw h refl in
            rw (subscribe_hunt_streams, on)
              (subscribe_hunt_streams-written wallet (suc id) amounts first.0
                ∙ ap (λ ws. ws ++ rest) w
                ∙ ap (λ ws. s.written ++ ws) left_out)
        | inl h ↦ elim (subscribe_size-Sent wallet id amount s h) [
          | inl (out, on, w) ↦
              let one_more : r ∷ rest ≡ all = rw (h, out) refl in
              rw (subscribe_hunt_streams, on)
                (subscribe_hunt_streams-written wallet (suc id) amounts first.0
                  ∙ ap (λ ws. ws ++ rest) w
                  ∙ append_assoc s.written (r ∷ []) rest
                  ∙ ap (λ ws. s.written ++ ws) one_more)
          | inr (out, (e, stop), w) ↦
              let no_more : [] ≡ all = rw (h, out) refl in
              rw (subscribe_hunt_streams, stop)
                (w ∙ sym (append-nil s.written) ∙ ap (λ ws. s.written ++ ws) no_more)
        ]
      ]
