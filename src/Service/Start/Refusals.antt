-- ===== src/Service/Start/Refusals.antt =====
-- The tasks of the upstreams against the errors that their constructors log.
use mathlib.Core.Option
use feed_mux.Prelude.{
  ℕ, ◌≡◌, sym, ap, ◌∙◌, arith, List, Bool, ◌&&◌, ◌||◌, not, Option, some, Text, codes, is_empty,
}
use feed_mux.Config.{Config, Base58Decode}
use feed_mux.Service.Hub.{is_titan_ready, is_triton_ready}
use feed_mux.Service.RateLimit.{Governor}
use feed_mux.Service.Start.{is_shred_ready, spawn_titan, spawn_triton, spawn_shred}
use feed_mux.Upstream.Live.{resolve_titan, resolve_triton, resolve_shred, wallet_pubkey_bytes}
use feed_mux.Upstream.Construct.Refused.{has_error, titan_refused, triton_refused, shred_refused}
use feed_mux.Upstream.Construct.Logged.{lines, lines-errors_of}

-- In live mode an upstream is either ready or refused.
titan_ready :
    (decode : Base58Decode) (config : Config)
    → is_titan_ready (resolve_titan decode config) ≡ (
        config.enable_titan_ws
        && not config.dry_run
        && not (titan_refused (resolve_titan decode config)))
unfolding resolve_titan
titan_ready decode config = ground arith

triton_ready :
    (config : Config)
    → is_triton_ready (resolve_triton config) ≡ (
        config.enable_triton_grpc
        && not config.dry_run
        && not (triton_refused (resolve_triton config)))
unfolding resolve_triton
triton_ready config = ground arith

shred_ready :
    (port : Text → Option ℕ) (config : Config)
    → is_shred_ready (resolve_shred port config) ≡ (
        config.enable_triton_shred
        && not config.dry_run
        && not (shred_refused (resolve_shred port config)))
unfolding resolve_shred
shred_ready port config = ground arith

module _ (governor : Governor) (decode : Base58Decode) (encode : List ℕ → Text)
    (port : Text → Option ℕ) (config : Config) where
  -- Whether an upstream that is enabled or not, in this configuration, is held back.
  abbrev pub held_back : Bool → Text → Bool
  held_back enabled name =
      not (enabled && not config.dry_run) || has_error name (lines governor decode port config)

  held_back-triton :
      held_back config.enable_triton_grpc (codes "triton_grpc")
      ≡ not (is_triton_ready (resolve_triton config))
  held_back-triton =
      rw (lines-errors_of governor decode port config (codes "triton_grpc"), triton_ready config)
        (ground arith)

  held_back-shred :
      held_back config.enable_triton_shred (codes "triton_shred_udp")
      ≡ not (is_shred_ready (resolve_shred port config))
  held_back-shred =
      rw
        (
          lines-errors_of governor decode port config (codes "triton_shred_udp"),
          shred_ready port config,
        )
        (ground arith)

  held_back-titan :
      held_back config.enable_titan_ws (codes "titan_ws")
      ≡ not (is_titan_ready (resolve_titan decode config))
  held_back-titan =
      rw (lines-errors_of governor decode port config (codes "titan_ws"), titan_ready decode config)
        (ground arith)

  triton_spawned :
      Option.map is_empty (spawn_triton config)
      ≡ some (not (is_triton_ready (resolve_triton config)))
  unfolding spawn_triton resolve_triton
  triton_spawned = ground arith

  shred_spawned :
      is_empty (spawn_shred decode encode port config)
      ≡ not (is_shred_ready (resolve_shred port config))
  unfolding spawn_shred resolve_shred
  shred_spawned = ground arith

  titan_spawned :
      Option.map is_empty (spawn_titan decode encode port config)
      ≡ some (not (is_titan_ready (resolve_titan decode config)))
  unfolding spawn_titan resolve_titan wallet_pubkey_bytes
  titan_spawned = ground arith

  -- An upstream that connects is left out of the tasks exactly if it is disabled, if a dry run is on, or
  -- if its constructor has logged an error; and starting Triton and Titan never panics.
  pub spawn_live-held_back :
      (Option.map is_empty (spawn_triton config)
        ≡ some (held_back config.enable_triton_grpc (codes "triton_grpc")))
      × (is_empty (spawn_shred decode encode port config)
          ≡ held_back config.enable_triton_shred (codes "triton_shred_udp"))
      × (Option.map is_empty (spawn_titan decode encode port config)
          ≡ some (held_back config.enable_titan_ws (codes "titan_ws")))
  spawn_live-held_back = (
    triton_spawned ∙ ap some (sym held_back-triton),
    shred_spawned ∙ sym held_back-shred,
    titan_spawned ∙ ap some (sym held_back-titan),
  )
