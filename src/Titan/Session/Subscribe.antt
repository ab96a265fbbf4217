-- ===== src/Titan/Session/Subscribe.antt =====
-- After the subscriptions every hunt size is either requested or marked.
use feed_mux.Prelude.{
  ℕ, zero, suc, ◌+◌, ◌<◌, ◌≡◌, refl, sym, ap, ◌∙◌, arith, List, [], ◌∷◌, true, false, none, some,
  inl, inr, Bool-cases, Option-cases, get_elem?, Option, Bool, if◌then◌else◌, ◌==◌, ==_refl,
}
use feed_mux.Prelude.TreeMap.{nat_key, lookup, contains_key, lookup-insert}
use feed_mux.Config.{Pubkey}
use feed_mux.Reconnect.{WsError}
use feed_mux.Titan.Registry.{register_pending_request}
use feed_mux.Titan.Board.{mark_unsubscribed}
use feed_mux.Titan.Request.{quote_stream_request}
use feed_mux.Titan.Session.{Script, Shared, send_request, subscribe_size, subscribe_hunt_streams}

module _ (script : Script) (wallet : Pubkey) where
  abbrev SizeRequested : ℕ → ℕ → Shared → Type 0
  SizeRequested id a s = lookup id s.registry.request_to_size ≡ some a

  abbrev SizeMarked : ℕ → Shared → Type 0
  SizeMarked a s = contains_key s.board.unsubscribed a ≡ true

  send_request-keeps :
      (id amount : ℕ) (s : Shared)
      → ((send_request script id (quote_stream_request wallet amount) s).0.registry ≡ s.registry)
        × ((send_request script id (quote_stream_request wallet amount) s).0.board ≡ s.board)
  unfolding send_request
  send_request-keeps id amount s = ground arith

  pub subscribe_size_allowed :
      (id amount : ℕ) (s : Shared)
      → script.allow id ≡ true
      → ((subscribe_size script wallet id amount s).0.registry
          ≡ register_pending_request s.registry id amount)
        × ((subscribe_size script wallet id amount s).0.board ≡ s.board)
  unfolding subscribe_size
  subscribe_size_allowed id amount s h =
      rw (subscribe_size, h)
        (send_request-keeps id amount
          (record s { registry = register_pending_request s.registry id amount }))

  pub subscribe_size_refused :
      (id amount : ℕ) (s : Shared)
      → script.allow id ≡ false
      → ((subscribe_size script wallet id amount s).0.registry ≡ s.registry)
        × ((subscribe_size script wallet id amount s).0.board ≡ mark_unsubscribed s.board amount)
  unfolding subscribe_size
  subscribe_size_refused id amount s h = rw (subscribe_size, h) (refl, refl)

  -- The outcome for one size: a request under the id, or the mark.
  abbrev Outcome : ℕ → ℕ → Shared → Type 0
  Outcome id a s =
      (script.allow id ≡ true → SizeRequested id a s) × (script.allow id ≡ false → SizeMarked a s)

  subscribe_size-Outcome :
      (id amount : ℕ) (s : Shared) → Outcome id amount (subscribe_size script wallet id amount s).0
  unfolding register_pending_request mark_unsubscribed
  subscribe_size-Outcome id amount s = (
    λ h.
        rw ((subscribe_size_allowed id amount s h).0)
          (lookup-insert id id amount s.registry.request_to_size ∙ ground arith),
    λ h.
        rw ((subscribe_size_refused id amount s h).1)
          (rw (lookup-insert amount amount tt s.board.unsubscribed) (ground arith)),
  )

  -- A later size leaves the outcome of an earlier one.
  subscribe_size-keeps :
      (id amount j a : ℕ) (s : Shared)
      → j < id
      → Outcome j a s
      → Outcome j a (subscribe_size script wallet id amount s).0
  unfolding register_pending_request mark_unsubscribed
  subscribe_size-keeps id amount j a s lt (r, m) = elim (Bool-cases (script.allow id)) [
    | inl h ↦
        let (e, f) = subscribe_size_allowed id amount s h in
        (
          λ k.
              rw e (lookup-insert id j amount s.registry.request_to_size ∙ ground (arith, r k, lt)),
          λ k. rw f (m k),
        )
    | inr h ↦
        let (e, f) = subscribe_size_refused id amount s h in
        (
          λ k. rw e (r k),
          λ k. rw f (ground (arith, lookup-insert amount a tt s.board.unsubscribed, m k)),
        )
  ]

  loop-keeps :
      (id j a : ℕ) (amounts : List ℕ) (s : Shared)
      → j < id
      → Outcome j a s
      → Outcome j a (subscribe_hunt_streams script wallet id amounts s).0
  unfolding subscribe_hunt_streams
  loop-keeps id j a [] s lt o = o
  loop-keeps id j a (amount ∷ amounts) s lt o =
      let s' = (subscribe_size script wallet id amount s).0 in
      let o' = subscribe_size-keeps id amount j a s lt o in
      elim (Option-cases (subscribe_size script wallet id amount s).1) [
        | inl p ↦
            rw (subscribe_hunt_streams, p) (loop-keeps (suc id) j a amounts s' (omega arith) o')
        | inr (e, p) ↦ rw (subscribe_hunt_streams, p) o'
      ]

  -- A turn without an error goes on with the next size.
  loop_next :
      (id amount : ℕ) (amounts : List ℕ) (s : Shared)
      → (subscribe_size script wallet id amount s).1 ≡ none
      → subscribe_hunt_streams script wallet id (amount ∷ amounts) s
        ≡ subscribe_hunt_streams script wallet
            (suc id)
            amounts
            (subscribe_size script wallet id amount s).0
  unfolding subscribe_hunt_streams
  loop_next id amount amounts s h = rw (subscribe_hunt_streams, h) refl

  loop_stop :
      (id amount : ℕ) (amounts : List ℕ) (s : Shared) (e : WsError)
      → (subscribe_size script wallet id amount s).1 ≡ some e
      → (subscribe_hunt_streams script wallet id (amount ∷ amounts) s).1 ≡ some e
  unfolding subscribe_hunt_streams
  loop_stop id amount amounts s e h = rw (subscribe_hunt_streams, h) refl

  went_on :
      (id amount : ℕ) (amounts : List ℕ) (s : Shared)
      → (subscribe_hunt_streams script wallet id (amount ∷ amounts) s).1 ≡ none
      → (subscribe_size script wallet id amount s).1 ≡ none
  went_on id amount amounts s h = elim (Option-cases (subscribe_size script wallet id amount s).1) [
    | inl p ↦ p
    | inr (e, p) ↦ absurd (ground (arith, h, loop_stop id amount amounts s e p))
  ]

  subscribe_hunt_streams-Outcome :
      (id i a : ℕ) (amounts : List ℕ) (s : Shared)
      → (subscribe_hunt_streams script wallet id amounts s).1 ≡ none
      → get_elem? amounts i ≡ some a
      → Outcome (id + i) a (subscribe_hunt_streams script wallet id amounts s).0
  subscribe_hunt_streams-Outcome id i a [] s h g = absurd (ground (arith, g))
  subscribe_hunt_streams-Outcome id zero a (amount ∷ amounts) s h g =
      let p = went_on id amount amounts s h in
      let s' = (subscribe_size script wallet id amount s).0 in
      let start : id + 0 ≡ id = omega arith in
      let here : a ≡ amount = ground (arith, g) in
      rw (start, here, loop_next id amount amounts s p)
        (loop-keeps (suc id) id amount amounts s' (omega arith)
          (subscribe_size-Outcome id amount s))
  subscribe_hunt_streams-Outcome id (suc i) a (amount ∷ amounts) s h g =
      let p = went_on id amount amounts s h in
      let s' = (subscribe_size script wallet id amount s).0 in
      let next : id + suc i ≡ suc id + i = omega arith in
      rw (next, loop_next id amount amounts s p)
        (subscribe_hunt_streams-Outcome (suc id) i a amounts s'
          (ap (λ r. r.1) (sym (loop_next id amount amounts s p)) ∙ h) g)

  abbrev holds_size : ℕ → Option ℕ → Bool
  holds_size a none = false
  holds_size a (some b) = b == a

  -- Whether the size is requested under the id, or marked where the limiter refuses the request.
  abbrev pub is_settled : ℕ → ℕ → Shared → Bool
  is_settled id a s =
      if script.allow id
      then holds_size a (lookup id s.registry.request_to_size)
      else contains_key s.board.unsubscribed a

  Outcome-is_settled : (id a : ℕ) (s : Shared) → Outcome id a s → is_settled id a s ≡ true
  Outcome-is_settled id a s (r, m) = elim (Bool-cases (script.allow id)) [
    | inl h ↦ rw (h, r h) (==_refl a)
    | inr h ↦ rw h (m h)
  ]

  -- Where the loop over the hunt sizes ends without an error, the size at index `i` is pending under
  -- its own request id if the rate limiter allows that request, and is marked as unsubscribed if not.
  pub subscribe_hunt_streams-is_settled :
      (id i a : ℕ) (amounts : List ℕ) (s : Shared)
      → (subscribe_hunt_streams script wallet id amounts s).1 ≡ none
      → get_elem? amounts i ≡ some a
      → is_settled (id + i) a (subscribe_hunt_streams script wallet id amounts s).0 ≡ true
  subscribe_hunt_streams-is_settled id i a amounts s h g =
      Outcome-is_settled (id + i) a (subscribe_hunt_streams script wallet id amounts s).0
        (subscribe_hunt_streams-Outcome id i a amounts s h g)
