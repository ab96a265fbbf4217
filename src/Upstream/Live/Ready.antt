-- ===== src/Upstream/Live/Ready.antt =====
-- What it takes to be ready, and what the statuses show.
use feed_mux.Prelude.{
  Bool, ℕ, ◌≡◌, ◌≢◌, arith, true, false, ◌||◌, ◌&&◌, not, Option, some, Text, is_empty, is_some,
  All, inl, inr, Option-cases,
}
use feed_mux.Config.{Config, Base58Decode}
use feed_mux.Upstream.Live.{UpstreamStatus}
use feed_mux.Upstream.Live.{
  TitanLiveState, ShredLiveState, resolve_titan, resolve_triton, resolve_shred, wallet_pubkey_bytes,
  shred_bind_conflicts_with_keep, Flags, statuses, titan_status, triton_status, shred_status,
  helius_status, chainstack_status, titan_mode, triton_mode, shred_mode,
}

-- Where the Titan upstream is ready, the URL and the bytes of the wallet that `spawn_live` expects
-- are there, the upstream is enabled and no dry run is on.
pub resolve_titan-ready :
    (decode : Base58Decode) (config : Config)
    → resolve_titan decode config ≡ TitanLiveState.ready
    → (is_some config.titan_ws_url ≡ true)
      × (is_some (wallet_pubkey_bytes decode config) ≡ true)
      × (config.enable_titan_ws ≡ true)
      × (config.dry_run ≡ false)
unfolding resolve_titan wallet_pubkey_bytes
resolve_titan-ready decode config h = ground (arith, h)

-- Where the shred listener is ready, its address has a port other than 8002, it has vaults to
-- watch, it is enabled and no dry run is on.
pub resolve_shred-ready :
    (port : Text → Option ℕ) (config : Config)
    → resolve_shred port config ≡ ShredLiveState.ready
    → ((p : ℕ) × (port config.shred_bind ≡ some p) × (p ≢ 8002))
      × (is_empty config.shred_watch_vaults ≡ false)
      × (config.enable_triton_shred ≡ true)
      × (config.dry_run ≡ false)
unfolding resolve_shred shred_bind_conflicts_with_keep
resolve_shred-ready port config h = elim (Option-cases (port config.shred_bind)) [
  | inl e ↦ absurd (ground (arith, h, e))
  | inr (p, e) ↦
      ((p, e, ground (arith, h, e)), ground (arith, h), ground (arith, h), ground (arith, h))
]

-- A status reports a connection only where its upstream is enabled and no dry run is on.
abbrev pub is_honest : Config → UpstreamStatus → Bool
is_honest config s = not s.connected || (s.enabled && not config.dry_run)

-- In a dry run no upstream reports to be connected, whatever the flags hold, and none does that
-- is not enabled.
pub statuses-connected :
    (decode : Base58Decode) (port : Text → Option ℕ) (config : Config) (flags : Flags)
    → All
        (λ s. s.connected ≡ true → (s.enabled ≡ true) × (config.dry_run ≡ false))
        (statuses decode port config flags)
unfolding statuses titan_status triton_status shred_status helius_status chainstack_status
    resolve_titan resolve_triton resolve_shred titan_mode triton_mode shred_mode
statuses-connected decode port config flags =
    (ground arith, (ground arith, (ground arith, (ground arith, (ground arith, tt)))))
