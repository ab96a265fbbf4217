-- ===== src/Service/Start/Ownership/Owners.antt =====
-- How many of the tasks that the program starts own a key: at most one.
use feed_mux.Prelude.{
  ℕ, ◌+◌, ◌≤◌, ◌≡◌, refl, sym, subst, ap, ◌∙◌, arith, List, [], ◌∷◌, ◌++◌, Bool, true, false,
  Option, some, Text, any, Bool-cases, Option-cases, inl, inr, some-injective, if◌then◌else◌,
  is_empty, ◌==◌, ◌⊎◌,
}
use feed_mux.Config.{Config, Base58Decode}
use feed_mux.Shred.VaultWatch.{from_pubkeys}
use feed_mux.Titan.Sizes.{parse_hunt_sizes}
use feed_mux.Upstream.Live.{resolve_titan, resolve_triton, resolve_shred, wallet_pubkey_bytes}
use feed_mux.Service.Hub.{is_titan_ready, is_triton_ready}
use feed_mux.Service.Start.{
  Task, titan_server, triton_server, mock_publisher, titan_live, triton_live, shred_live,
  heartbeats, polls, http_server, is_shred_ready, started_with, spawn_titan_server,
  spawn_triton_server, spawn_mock_publisher, spawn_triton, spawn_shred, spawn_titan, spawn_live,
  spawn_feeds, both,
}
use feed_mux.Service.Start.Shape.{both-some}
use feed_mux.Service.Start.Ownership.{owns, titan_key, triton_key, shred_key}
use feed_mux.Service.Start.Ownership.Families.{one, one_family}

-- How many of the tasks own a key.
abbrev pub owners : Text → List Task → ℕ
owners k [] = 0
owners k (t ∷ ts) = one (owns t k) + owners k ts

owners-append : (k : Text) (ts us : List Task) → owners k (ts ++ us) ≡ owners k ts + owners k us
owners-append k [] us = omega arith
owners-append k (t ∷ ts) us = omega (arith, owners-append k ts us)

pub owners_zero : (k : Text) (ts : List Task) → owners k ts ≡ 0 → any (λ u. owns u k) ts ≡ false
owners_zero k [] h = refl
owners_zero k (t ∷ ts) h = ground (arith, h, owners_zero k ts)

pub alone :
    (k : Text) (before after : List Task) (t : Task)
    → owns t k ≡ true
    → owners k (before ++ (t ∷ after)) ≤ 1
    → (owners k before ≡ 0) × (owners k after ≡ 0)
alone k before after t mine few =
    let counted : owners k (before ++ (t ∷ after)) ≡ owners k before + (1 + owners k after) =
      owners-append k before (t ∷ after)
      ∙ ap (λ b. owners k before + (one b + owners k after)) mine in
    (omega (arith, few, counted), omega (arith, few, counted))

pub alone_among :
    (k : Text) (before after : List Task) (t : Task)
    → owns t k ≡ true
    → owners k (before ++ (t ∷ after)) ≤ 1
    → any (λ u. owns u k) (before ++ after) ≡ false
alone_among k before after t mine few =
    let (none_before, none_after) = alone k before after t mine few in
    owners_zero k (before ++ after)
      (omega (arith, owners-append k before after, none_before, none_after))

owners_if :
    (k : Text) (n : ℕ) (b : Bool) (ts us : List Task)
    → owners k ts ≤ n
    → owners k us ≤ n
    → owners k (if b then ts else us) ≤ n
owners_if k n true ts us h g = h
owners_if k n false ts us h g = g

either :
    {A : Type 0} (b : Bool) (r q : Option A) (a : A)
    → (if b then r else q) ≡ some a
    → (r ≡ some a) ⊎ (q ≡ some a)
either true r q a h = inl h
either false r q a h = inr h

module _ (decode : Base58Decode) (encode : List ℕ → Text) (port : Text → Option ℕ) (config : Config)
    (k : Text) where
  servers_owners :
      (owners k (spawn_titan_server config) ≤ 0) × (owners k (spawn_triton_server config) ≤ 0)
  unfolding spawn_titan_server spawn_triton_server
  servers_owners = (
    owners_if k 0 config.enable_titan_ws (titan_server config.titan_local_bind ∷ []) []
        (omega arith) (omega arith),
    owners_if k 0 config.enable_triton_grpc (triton_server config.triton_local_bind ∷ []) []
        (omega arith) (omega arith),
  )

  mock_owners : owners k (spawn_mock_publisher config) ≤ 0
  unfolding spawn_mock_publisher
  mock_owners =
      owners_if k 0 (config.mock_publish_interval_secs == 0) []
        (mock_publisher config.mock_publish_interval_secs ∷ []) (omega arith) (omega arith)

  triton_owners :
      (ts : List Task) → spawn_triton config ≡ some ts → owners k ts ≤ one (triton_key k)
  unfolding spawn_triton
  triton_owners ts e = elim (Bool-cases (is_triton_ready (resolve_triton config))) [
    | inr r ↦
        subst (λ us. owners k us ≤ one (triton_key k))
          (some-injective [] ts (rw (spawn_triton, r) at e)) (omega arith)
    | inl r ↦ elim (Option-cases config.triton_grpc_url) [
      | inl u ↦ absurd (ground (arith, rw (spawn_triton, r, u) at e))
      | inr (url, u) ↦
          subst (λ us. owners k us ≤ one (triton_key k))
            (some-injective (triton_live url config.triton_grpc_token ∷ []) ts
              (rw (spawn_triton, r, u) at e))
            (omega arith)
    ]
  ]

  titan_owners :
      (ts : List Task)
      → spawn_titan decode encode port config ≡ some ts
      → owners k ts ≤ one (titan_key k)
  unfolding spawn_titan
  titan_owners ts e = elim (Bool-cases (is_titan_ready (resolve_titan decode config))) [
    | inr r ↦
        subst (λ us. owners k us ≤ one (titan_key k))
          (some-injective [] ts (rw (spawn_titan, r) at e)) (omega arith)
    | inl r ↦ elim (Option-cases config.titan_ws_url) [
      | inl u ↦ absurd (ground (arith, rw (spawn_titan, r, u) at e))
      | inr (url, u) ↦ elim (Option-cases (wallet_pubkey_bytes decode config)) [
        | inl w ↦ absurd (ground (arith, rw (spawn_titan, r, u, w) at e))
        | inr (wallet, w) ↦
            subst (λ us. owners k us ≤ one (titan_key k))
              (some-injective
                (titan_live url wallet (parse_hunt_sizes config.titan_hunt_size_lamports)
                    config.titan_hop1_ttl_secs
                  ∷ [])
                ts (rw (spawn_titan, r, u, w) at e))
              (omega arith)
      ]
    ]
  ]

  shred_owners : owners k (spawn_shred decode encode port config) ≤ one (shred_key k)
  unfolding spawn_shred
  shred_owners =
      let task =
        shred_live config.shred_bind (from_pubkeys encode config.shred_watch_vaults)
          config.shred_hit_ttl_secs config.shred_udp_prefix_skip in
      owners_if k (one (shred_key k)) (is_empty config.shred_watch_vaults) []
        (if is_shred_ready (resolve_shred port config) then task ∷ [] else []) (omega arith)
        (owners_if k (one (shred_key k)) (is_shred_ready (resolve_shred port config)) (task ∷ []) []
          (omega arith) (omega arith))

  feeds_owners :
      (feeds : List Task) → spawn_feeds decode encode port config ≡ some feeds → owners k feeds ≤ 1
  unfolding spawn_feeds spawn_live
  feeds_owners feeds e =
      elim (either config.dry_run (some (spawn_mock_publisher config))
        (both (spawn_live decode encode port config) (some (heartbeats ∷ []))) feeds e) [
          | inl mock ↦
              subst (λ ts. owners k ts ≤ 1)
                (some-injective (spawn_mock_publisher config) feeds mock)
                (omega (arith, mock_owners))
          | inr live ↦
              let (us, vs, eu, ev, e1) =
                both-some (spawn_live decode encode port config) (some (heartbeats ∷ [])) feeds
                  live in
              let (ws, titans, ew, et, e2) =
                both-some
                  (both (spawn_triton config) (some (spawn_shred decode encode port config)))
                  (spawn_titan decode encode port config) us eu in
              let (tritons, shreds, er, es, e3) =
                both-some (spawn_triton config) (some (spawn_shred decode encode port config)) ws
                  ew in
              let all : feeds
                  ≡ tritons
                    ++ spawn_shred decode encode port config
                    ++ titans
                    ++ (heartbeats ∷ []) =
                cc (e1, e2, e3, some-injective _ _ es, some-injective _ _ ev) in
              subst (λ ts. owners k ts ≤ 1) (sym all)
                (omega (
                  arith,
                  owners-append k (tritons ++ spawn_shred decode encode port config ++ titans)
                      (heartbeats ∷ []),
                  owners-append k (tritons ++ spawn_shred decode encode port config) titans,
                  owners-append k tritons (spawn_shred decode encode port config),
                  triton_owners tritons er,
                  titan_owners titans et,
                  shred_owners,
                  one_family k,
                ))
        ]

  pub started_owners :
      (opens connects binds : Text → Bool) (feeds : List Task)
      → spawn_feeds decode encode port config ≡ some feeds
      → owners k (started_with opens connects binds config feeds).tasks ≤ 1
  started_owners opens connects binds feeds e =
      let last = if binds config.bind_addr then http_server config.bind_addr ∷ [] else [] in
      let none_there : owners k last ≤ 0 =
        owners_if k 0 (binds config.bind_addr) (http_server config.bind_addr ∷ []) [] (omega arith)
          (omega arith) in
      omega (
        arith,
        owners-append k (spawn_titan_server config ++ spawn_triton_server config ++ feeds)
            (polls ∷ last),
        owners-append k (spawn_titan_server config ++ spawn_triton_server config) feeds,
        owners-append k (spawn_titan_server config) (spawn_triton_server config),
        servers_owners.0,
        servers_owners.1,
        feeds_owners feeds e,
        none_there,
      )
