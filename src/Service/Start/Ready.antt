-- ===== src/Service/Start/Ready.antt =====
-- The tasks that the program starts have what they need.
use feed_mux.Prelude.{
  ℕ, ◌≡◌, ◌≢◌, refl, arith, List, [], ◌∷◌, ◌++◌, Bool, true, false, Option, none, some, is_some,
  is_empty, Text, All, All-append, Option-cases, inl, inr, ◌==◌, ◌⊎◌, if◌then◌else◌,
}
use feed_mux.Prelude.Words.{trim}
use feed_mux.Config.{Config, Base58Decode}
use feed_mux.Shred.VaultWatch.{from_pubkeys}
use feed_mux.Titan.Sizes.{parse_hunt_sizes}
use feed_mux.Titan.Sizes.Order.{IsIncreasing, parse_hunt_sizes-IsIncreasing}
use feed_mux.Upstream.Live.{
  TitanLiveState, TritonLiveState, ShredLiveState, resolve_titan, resolve_triton, resolve_shred,
  wallet_pubkey_bytes,
}
use feed_mux.Upstream.Live.Ready.{resolve_titan-ready, resolve_shred-ready}
use feed_mux.Service.Hub.{is_titan_ready, is_triton_ready}
use feed_mux.Service.Start.{
  Task, titan_server, triton_server, mock_publisher, titan_live, triton_live, shred_live,
  heartbeats, polls, http_server, Started, is_shred_ready, started_with, spawn_titan_server,
  spawn_triton_server, spawn_mock_publisher, spawn_triton, spawn_shred, spawn_titan, spawn_live,
  spawn_feeds, both, run,
}

All-if :
    (P : Task → Type 0) (b : Bool) (ts us : List Task)
    → (b ≡ true → All P ts)
    → (b ≡ false → All P us)
    → All P (if b then ts else us)
All-if P true ts us h k = h refl
All-if P false ts us h k = k refl

is_some-some : {A : Type 0} (o : Option A) → is_some o ≡ true → (a : A) × (o ≡ some a)
is_some-some none h = absurd (ground (arith, h))
is_some-some (some a) h = (a, refl)

titan_ready_cases : (s : TitanLiveState) → (s ≡ TitanLiveState.ready) ⊎ (is_titan_ready s ≡ false)
titan_ready_cases TitanLiveState.ready = inl refl
titan_ready_cases _ = inr refl

triton_ready_cases :
    (s : TritonLiveState) → (s ≡ TritonLiveState.ready) ⊎ (is_triton_ready s ≡ false)
triton_ready_cases TritonLiveState.ready = inl refl
triton_ready_cases _ = inr refl

is_shred_ready-ready : (s : ShredLiveState) → is_shred_ready s ≡ true → s ≡ ShredLiveState.ready
is_shred_ready-ready ShredLiveState.ready h = refl
is_shred_ready-ready _ h = absurd (ground (arith, h))

resolve_triton-ready :
    (config : Config)
    → resolve_triton config ≡ TritonLiveState.ready
    → (config.enable_triton_grpc ≡ true)
      × (config.dry_run ≡ false)
      × ((url : Text) × (config.triton_grpc_url ≡ some url) × (is_empty (trim url) ≡ false))
unfolding resolve_triton
resolve_triton-ready config h = elim (Option-cases config.triton_grpc_url) [
  | inl e ↦ absurd (ground (arith, h, e))
  | inr (url, e) ↦ (ground (arith, h), ground (arith, h), (url, e, ground (arith, h, e)))
]

module _ (decode : Base58Decode) (encode : List ℕ → Text) (port : Text → Option ℕ)
    (config : Config) where
  -- What a task relies on.
  abbrev pub IsSound : Task → Type 0
  IsSound (titan_server bind) = config.enable_titan_ws ≡ true
  IsSound (triton_server bind) = config.enable_triton_grpc ≡ true
  IsSound (mock_publisher n) = (config.dry_run ≡ true) × (n ≢ 0)
  IsSound (titan_live url wallet sizes ttl) =
      (config.enable_titan_ws ≡ true)
      × (config.dry_run ≡ false)
      × (config.titan_ws_url ≡ some url)
      × (wallet_pubkey_bytes decode config ≡ some wallet)
      × IsIncreasing sizes
  IsSound (triton_live url token) =
      (config.enable_triton_grpc ≡ true)
      × (config.dry_run ≡ false)
      × (config.triton_grpc_url ≡ some url)
      × (is_empty (trim url) ≡ false)
  IsSound (shred_live bind vaults ttl skip) =
      (config.enable_triton_shred ≡ true)
      × (config.dry_run ≡ false)
      × (is_empty config.shred_watch_vaults ≡ false)
      × ((p : ℕ) × (port bind ≡ some p) × (p ≢ 8002))
  IsSound heartbeats = config.dry_run ≡ false
  IsSound polls = Unit
  IsSound (http_server bind) = Unit

  -- Tasks that are there, and sound.
  abbrev Spawned : Option (List Task) → Type 0
  Spawned r = (ts : List Task) × (r ≡ some ts) × All IsSound ts

  both-Spawned : (r q : Option (List Task)) → Spawned r → Spawned q → Spawned (both r q)
  both-Spawned r q (ts, e, h) (us, f, k) = (ts ++ us, rw (e, f) refl, All-append IsSound ts us h k)

  if-Spawned :
      (b : Bool) (r q : Option (List Task))
      → (b ≡ true → Spawned r)
      → (b ≡ false → Spawned q)
      → Spawned (if b then r else q)
  if-Spawned true r q h k = h refl
  if-Spawned false r q h k = k refl

  servers-IsSound :
      All IsSound (spawn_titan_server config) × All IsSound (spawn_triton_server config)
  unfolding spawn_titan_server spawn_triton_server
  servers-IsSound = (
    All-if IsSound config.enable_titan_ws (titan_server config.titan_local_bind ∷ []) []
        (λ h. (h, tt)) (λ h. tt),
    All-if IsSound config.enable_triton_grpc (triton_server config.triton_local_bind ∷ []) []
        (λ h. (h, tt)) (λ h. tt),
  )

  mock-IsSound : config.dry_run ≡ true → All IsSound (spawn_mock_publisher config)
  unfolding spawn_mock_publisher
  mock-IsSound h =
      let n = config.mock_publish_interval_secs in
      All-if IsSound (n == 0) [] (mock_publisher n ∷ []) (λ z. tt)
        (λ z. ((h, ground (arith, z)), tt))

  spawn_titan-Spawned : Spawned (spawn_titan decode encode port config)
  unfolding spawn_titan
  spawn_titan-Spawned = elim (titan_ready_cases (resolve_titan decode config)) [
    | inl ready ↦
        let (url_there, wallet_there, enabled, wet) = resolve_titan-ready decode config ready in
        let (url, e) = is_some-some config.titan_ws_url url_there in
        let (wallet, f) = is_some-some (wallet_pubkey_bytes decode config) wallet_there in
        let sizes = parse_hunt_sizes config.titan_hunt_size_lamports in
        let increasing = parse_hunt_sizes-IsIncreasing config.titan_hunt_size_lamports in
        (
          titan_live url wallet sizes config.titan_hop1_ttl_secs ∷ [],
          rw (spawn_titan, ready, e, f) refl,
          ((enabled, wet, e, f, increasing), tt),
        )
    | inr other ↦ ([], rw (spawn_titan, other) refl, tt)
  ]

  spawn_triton-Spawned : Spawned (spawn_triton config)
  unfolding spawn_triton
  spawn_triton-Spawned = elim (triton_ready_cases (resolve_triton config)) [
    | inl ready ↦
        let (enabled, wet, (url, e, filled)) = resolve_triton-ready config ready in
        (
          triton_live url config.triton_grpc_token ∷ [],
          rw (spawn_triton, ready, e) refl,
          ((enabled, wet, e, filled), tt),
        )
    | inr other ↦ ([], rw (spawn_triton, other) refl, tt)
  ]

  spawn_shred-IsSound : All IsSound (spawn_shred decode encode port config)
  unfolding spawn_shred
  spawn_shred-IsSound =
      let task =
        shred_live config.shred_bind (from_pubkeys encode config.shred_watch_vaults)
          config.shred_hit_ttl_secs config.shred_udp_prefix_skip in
      All-if IsSound (is_empty config.shred_watch_vaults) []
        (if is_shred_ready (resolve_shred port config) then task ∷ [] else []) (λ e. tt)
        (λ e.
          All-if IsSound (is_shred_ready (resolve_shred port config)) (task ∷ []) []
            (λ r.
              let (bound, watching, enabled, wet) =
                resolve_shred-ready port config
                  (is_shred_ready-ready (resolve_shred port config) r) in
              ((enabled, wet, watching, bound), tt))
            (λ r. tt))

  spawn_feeds-Spawned : Spawned (spawn_feeds decode encode port config)
  unfolding spawn_feeds spawn_live
  spawn_feeds-Spawned =
      if-Spawned config.dry_run (some (spawn_mock_publisher config))
        (both (spawn_live decode encode port config) (some (heartbeats ∷ [])))
        (λ dry. (spawn_mock_publisher config, refl, mock-IsSound dry))
        (λ wet.
          both-Spawned (spawn_live decode encode port config) (some (heartbeats ∷ []))
            (both-Spawned
              (both (spawn_triton config) (some (spawn_shred decode encode port config)))
              (spawn_titan decode encode port config)
              (both-Spawned (spawn_triton config) (some (spawn_shred decode encode port config))
                spawn_triton-Spawned
                (spawn_shred decode encode port config, refl, spawn_shred-IsSound))
              spawn_titan-Spawned)
            (heartbeats ∷ [], refl, (wet, tt)))

  -- The program never panics where it starts its tasks, whatever the configuration. Each task that it
  -- starts is enabled and has what it needs: the live tasks and the heartbeat start only outside a dry
  -- run and the mock publisher, with an interval that is not 0, only in one; the Titan task has the
  -- configured URL, the 32 bytes of the wallet and increasing sizes, the Triton task a URL that is
  -- not blank, and the shred listener vaults to watch and an address with a port other than 8002.
  pub run-IsSound :
      (opens connects binds : Text → Bool)
      → (started : Started) × (run decode encode port opens connects binds config ≡ some started)
        × All IsSound started.tasks
  unfolding run
  run-IsSound opens connects binds =
      let (feeds, e, sound) = spawn_feeds-Spawned in
      let last = if binds config.bind_addr then http_server config.bind_addr ∷ [] else [] in
      (
        started_with opens connects binds config feeds,
        rw (run, e) refl,
        All-append IsSound (spawn_titan_server config ++ spawn_triton_server config ++ feeds)
            (polls ∷ last)
            (All-append IsSound (spawn_titan_server config ++ spawn_triton_server config) feeds
              (All-append IsSound (spawn_titan_server config) (spawn_triton_server config)
                servers-IsSound.0 servers-IsSound.1)
              sound)
            (
              tt,
              All-if IsSound (binds config.bind_addr) (http_server config.bind_addr ∷ []) []
                  (λ h. (tt, tt)) (λ h. tt),
            ),
      )
