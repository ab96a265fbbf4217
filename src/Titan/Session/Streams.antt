-- ===== src/Titan/Session/Streams.antt =====
-- The sizes of the streams that a session knows.
use feed_mux.Prelude.{
  ℕ, suc, ◌+◌, ◌≡◌, refl, sym, subst, ap, ◌∙◌, arith, Bool, true, false, List, [], ◌∷◌, Option,
  none, some, get_elem?, if◌then◌else◌, Text, codes, Result, ok, err, Bool-cases, Option-cases, inl,
  inr, some-injective,
}
use feed_mux.Prelude.TreeMap.{Map, nat_key, same, lookup, insert, lookup-insert}
use feed_mux.Config.{Base58Decode, Pubkey}
use feed_mux.Fanout.{RedisFanout}
use feed_mux.Reconnect.{WsError, WsDisconnectKind}
use feed_mux.Titan.Value.{Value, map_contains_key}
use feed_mux.Titan.Registry.{TitanStreamRegistry, cleared, register_pending_request, confirm_stream}
use feed_mux.Titan.Board.{TitanSizeBoardDoc}
use feed_mux.Titan.Message.{TitanHop1Row, confirmation, register_stream_from_response}
use feed_mux.Titan.Session.{
  Script, Shared, Event, binary_message, ping, close_message, other_message, failure,
  mark_titan_disconnected, mark_connected, start_session, send_get_info, send_request,
  subscribe_size, subscribe_hunt_streams, with_snapshot, on_binary, read_loop, finish_session,
  run_session,
}
use feed_mux.Titan.Session.Pins.{registry_after, handled-Effect}
use feed_mux.Titan.Session.Subscribe.{subscribe_size_allowed, subscribe_size_refused}

module _ (script : Script) (hunt_sizes : List ℕ) (wallet : Pubkey) where
  -- A hunt size whose request the rate limiter has allowed.
  abbrev pub Asked : ℕ → Type 0
  Asked size = (i : ℕ) × (get_elem? hunt_sizes i ≡ some size) × (script.allow (2 + i) ≡ true)

  abbrev Sizes : Map ℕ ℕ → Type 0
  Sizes m = (id size : ℕ) → lookup id m ≡ some size → Asked size

  -- The registry holds such sizes only.
  record Known (r : TitanStreamRegistry) : Type 0 where
    requests : Sizes r.request_to_size
    streams : Sizes r.stream_to_size

  insert-Sizes : (k v : ℕ) (m : Map ℕ ℕ) → Asked v → Sizes m → Sizes (insert k v m)
  insert-Sizes k v m asked sizes j size h =
      let e : (if same j k then some v else lookup j m) ≡ some size =
        sym (lookup-insert k j v m) ∙ h in
      elim (Bool-cases (same j k)) [
        | inl t ↦ subst Asked (some-injective v size (rw t at e)) asked
        | inr f ↦ sizes j size (rw f at e)
      ]

  cleared-Known : Known cleared
  unfolding lookup
  cleared-Known = record {
    requests = λ id size h. absurd (ground (arith, h));
    streams = λ id size h. absurd (ground (arith, h));
  }

  register-Known :
      (r : TitanStreamRegistry) (id amount : ℕ)
      → Asked amount
      → Known r
      → Known (register_pending_request r id amount)
  unfolding register_pending_request
  register-Known r id amount asked k = record {
    requests = insert-Sizes id amount r.request_to_size asked k.requests;
    streams = k.streams;
  }

  confirm_stream-Known :
      (r : TitanStreamRegistry) (request_id stream_id : ℕ)
      → Known r
      → Known (confirm_stream r request_id stream_id)
  unfolding confirm_stream
  confirm_stream-Known r request_id stream_id k =
      elim (Option-cases (lookup request_id r.request_to_size)) [
        | inl h ↦ rw (confirm_stream, h) k
        | inr (size, h) ↦
            rw (confirm_stream, h)
              (record {
                requests = k.requests;
                streams =
                    insert-Sizes stream_id size r.stream_to_size (k.requests request_id size h)
                      k.streams;
              })
      ]

  response-Known :
      (v : Value) (r : TitanStreamRegistry) → Known r → Known (register_stream_from_response v r)
  unfolding register_stream_from_response
  response-Known v r k = elim (Option-cases (confirmation v)) [
    | inl h ↦ rw (register_stream_from_response, h) k
    | inr ((request_id, stream_id), h) ↦
        rw (register_stream_from_response, h) (confirm_stream-Known r request_id stream_id k)
  ]

  registry_after-Known :
      (decode : Base58Decode) (encode : List ℕ → Text) (v : Option Value) (r : TitanStreamRegistry)
      → Known r
      → Known (registry_after decode encode v r)
  registry_after-Known decode encode none r k = k
  registry_after-Known decode encode (some v) r k =
      elim (Bool-cases (map_contains_key v (codes "StreamData"))) [
        | inl h ↦ rw h k
        | inr h ↦ elim (Bool-cases (map_contains_key v (codes "Response"))) [
          | inl g ↦ rw (h, g) (response-Known v r k)
          | inr g ↦ rw (h, g) k
        ]
      ]

  subscribe_size-Known :
      (id amount : ℕ) (s : Shared)
      → (script.allow id ≡ true → Asked amount)
      → Known s.registry
      → Known (subscribe_size script wallet id amount s).0.registry
  subscribe_size-Known id amount s asked k = elim (Bool-cases (script.allow id)) [
    | inl h ↦
        subst Known (sym (subscribe_size_allowed script wallet id amount s h).0)
          (register-Known s.registry id amount (asked h) k)
    | inr h ↦ subst Known (sym (subscribe_size_refused script wallet id amount s h).0) k
  ]

  subscribe_hunt_streams-Known :
      (n : ℕ) (amounts : List ℕ) (s : Shared)
      → ((i a : ℕ) → get_elem? amounts i ≡ some a → get_elem? hunt_sizes (n + i) ≡ some a)
      → Known s.registry
      → Known (subscribe_hunt_streams script wallet (2 + n) amounts s).0.registry
  unfolding subscribe_hunt_streams
  subscribe_hunt_streams-Known n [] s at k = k
  subscribe_hunt_streams-Known n (amount ∷ amounts) s at k =
      let first = subscribe_size script wallet (2 + n) amount s in
      let here : get_elem? hunt_sizes n ≡ some amount =
        ap (get_elem? hunt_sizes) (omega arith) ∙ at 0 amount refl in
      let later : (i a : ℕ)
          → get_elem? amounts i ≡ some a
          → get_elem? hunt_sizes (suc n + i) ≡ some a =
        λ i a h. ap (get_elem? hunt_sizes) (omega arith) ∙ at (suc i) a h in
      let kept = subscribe_size-Known (2 + n) amount s (λ allowed. (n, here, allowed)) k in
      let next : 2 + suc n ≡ suc (2 + n) = omega arith in
      elim (Option-cases first.1) [
        | inr (e, h) ↦ rw (subscribe_hunt_streams, h) kept
        | inl h ↦
            rw (subscribe_hunt_streams, h)
              (subst
                (λ id. Known (subscribe_hunt_streams script wallet id amounts first.0).0.registry)
                next (subscribe_hunt_streams-Known (suc n) amounts first.0 later kept))
      ]

  send_get_info-registry : (s : Shared) → (send_get_info script s).0.registry ≡ s.registry
  unfolding send_get_info send_request
  send_get_info-registry s = ground arith

  module _ (decode : Base58Decode) (encode : List ℕ → Text)
      (row_json : TitanHop1Row → Result Text Text) (doc_json : TitanSizeBoardDoc → Result Text Text)
      (fanout : RedisFanout) (has_relay : Bool) (ttl : ℕ) where
    read_loop-Known :
        (es : List Event) (received : Bool) (s : Shared)
        → Known s.registry
        → Known
            (read_loop decode encode row_json doc_json fanout has_relay ttl hunt_sizes wallet es
              received s).0.registry
    unfolding read_loop on_binary
    read_loop-Known [] received s k = k
    read_loop-Known (binary_message bytes value ts now end ∷ es) received s k =
        read_loop-Known es true _ (
          subst Known
            (sym
              (handled-Effect decode encode row_json doc_json fanout ttl value ts now end 0
                s.registry s.board).1)
            (registry_after-Known decode encode value s.registry k))
    read_loop-Known (ping none ∷ es) received s k = read_loop-Known es received s k
    read_loop-Known (ping (some e) ∷ es) received s k = k
    read_loop-Known (close_message ∷ es) received s k = k
    read_loop-Known (other_message ∷ es) received s k = read_loop-Known es received s k
    read_loop-Known (failure e ∷ es) received s k = k

    finish_session-Known :
        (p : Shared × Bool × Result WsError WsDisconnectKind)
        → Known p.0.registry
        → Known
            (finish_session decode encode row_json doc_json fanout has_relay ttl hunt_sizes wallet
              script p).0.registry
    unfolding finish_session mark_titan_disconnected
    finish_session-Known (s, received, err e) k = k
    finish_session-Known (s, received, ok kind) k = k

    run_session-Known :
        (s : Shared)
        → script.connecting ≡ none
        → Known
            (run_session decode encode row_json doc_json fanout has_relay ttl hunt_sizes wallet
              script s).0.registry
    unfolding run_session start_session mark_connected with_snapshot
    run_session-Known s c =
        let s0 = start_session hunt_sizes (mark_connected fanout has_relay s) in
        let first = send_get_info script s0 in
        let second = subscribe_hunt_streams script wallet 2 hunt_sizes first.0 in
        let kept1 : Known first.0.registry =
          subst Known (sym (send_get_info-registry s0)) cleared-Known in
        let kept2 : Known second.0.registry =
          subscribe_hunt_streams-Known 0 hunt_sizes first.0
            (λ i a h. ap (get_elem? hunt_sizes) (omega arith) ∙ h) kept1 in
        let third =
          read_loop decode encode row_json doc_json fanout has_relay ttl hunt_sizes wallet
            script.events false
            (with_snapshot decode encode row_json doc_json fanout has_relay ttl hunt_sizes wallet
              script second.0) in
        let all =
          run_session decode encode row_json doc_json fanout has_relay ttl hunt_sizes wallet script
            s in
        elim (Option-cases first.1) [
          | inr (e, u) ↦
              let same_as : all.0.registry ≡ first.0.registry = rw (run_session, c, u) refl in
              subst Known (sym same_as) kept1
          | inl u ↦ elim (Option-cases second.1) [
            | inr (e, v) ↦
                let same_as : all.0.registry ≡ second.0.registry = rw (run_session, c, u, v) refl in
                subst Known (sym same_as) kept2
            | inl v ↦
                let ends : all
                    ≡ finish_session decode encode row_json doc_json fanout has_relay ttl hunt_sizes
                        wallet script third =
                  rw (run_session, c, u, v) refl in
                subst (λ x. Known x.0.registry) (sym ends)
                  (finish_session-Known third (
                    read_loop-Known script.events false
                      (with_snapshot decode encode row_json doc_json fanout has_relay ttl hunt_sizes
                        wallet script second.0)
                      kept2))
          ]
        ]

    -- In a session that connects, whatever the server sends and however the session ends, a stream that
    -- the registry knows stands for one of the hunt sizes whose request the rate limiter has allowed in
    -- this session: none of an earlier session is left.
    pub run_session-streams :
        (s : Shared) (stream_id size : ℕ)
        → script.connecting ≡ none
        → lookup stream_id
            (run_session decode encode row_json doc_json fanout has_relay ttl hunt_sizes wallet
              script s).0.registry.stream_to_size
          ≡ some size
        → Asked size
    run_session-streams s stream_id size c h = (run_session-Known s c).streams stream_id size h
