-- ===== src/Upstream/Construct/Logged.antt =====
-- No upstream is refused in silence: the lines of the constructors against the statuses and against
-- the tasks that are started.
use feed_mux.Prelude.{
  ℕ, ◌≡◌, ◌∙◌, arith, List, ◌||◌, Bool, false, ◌&&◌, not, Option, Text, codes, All, text_eq,
  is_some, starts_with,
}
use feed_mux.Config.{Config, Base58Decode}
use feed_mux.Service.RateLimit.{Governor}
use feed_mux.Upstream.Live.{
  Flags, statuses, titan_status, triton_status, shred_status, helius_status, chainstack_status,
  titan_mode, triton_mode, shred_mode, resolve_titan, resolve_triton, resolve_shred,
}
use feed_mux.Upstream.Lines.{LogLine, titan_lines, triton_lines, shred_lines}
use feed_mux.Upstream.Construct.{
  new_titan, new_triton, new_shred, new_helius, new_chainstack, from_config,
}
use feed_mux.Upstream.Construct.Refused.{
  has_error, has_error-append, has_error-in_live_mode, titan_refused, triton_refused, shred_refused,
  titan_errors, triton_errors, shred_errors, titan_mode-refused, triton_mode-refused,
  shred_mode-refused, titan_refused_live, triton_refused_live, shred_refused_live,
}

-- The flags at the start.
abbrev pub fresh : Flags
fresh = record {
  titan_connected = false;
  triton_connected = false;
  triton_auth_blocked = false;
  shred_bound = false;
}

module _ (governor : Governor) (decode : Base58Decode) (port : Text → Option ℕ)
    (config : Config) where
  abbrev pub lines : List LogLine
  lines = (from_config governor decode port config).1

  abbrev pub helius_refused : Bool
  helius_refused = config.enable_helius && not config.dry_run && not (is_some config.helius_rpc_url)

  -- The errors in the log, by the upstream.
  abbrev pub errors_of : Text → Bool
  errors_of name =
      (helius_refused && text_eq name (codes "helius"))
      || (config.enable_triton_grpc
          && not config.dry_run
          && (text_eq name (codes "triton_grpc") && triton_refused (resolve_triton config)))
      || (config.enable_triton_shred
          && not config.dry_run
          && (text_eq name (codes "triton_shred_udp") && shred_refused (resolve_shred port config)))
      || (config.enable_titan_ws
          && not config.dry_run
          && (text_eq name (codes "titan_ws") && titan_refused (resolve_titan decode config)))

  pub lines-errors_of : (name : Text) → has_error name lines ≡ errors_of name
  unfolding from_config new_titan new_triton new_shred new_helius new_chainstack
  lines-errors_of name =
      rw
        (
          has_error-append, has_error-append, has_error-append, has_error-in_live_mode,
          has_error-in_live_mode, has_error-in_live_mode, triton_errors, shred_errors, titan_errors,
        )
        (ground arith)

  -- The constructors log an error of an upstream exactly if the upstream is enabled and its status
  -- reports a mode of error.
  pub from_config-statuses :
      All
        (λ s. has_error s.name lines ≡ (s.enabled && starts_with s.mode (codes "error/")))
        (statuses decode port config fresh)
  unfolding from_config new_titan new_triton new_shred new_helius new_chainstack titan_lines
      triton_lines shred_lines statuses titan_status triton_status shred_status helius_status
      chainstack_status titan_mode triton_mode shred_mode
  from_config-statuses = (
    lines-errors_of (codes "chainstack") ∙ ground arith,
    (
      lines-errors_of (codes "helius") ∙ ground arith,
      (
        lines-errors_of (codes "triton_grpc")
            ∙ ground
                (arith, triton_mode-refused (resolve_triton config), triton_refused_live config),
        (
          lines-errors_of (codes "triton_shred_udp")
              ∙ ground (
                arith,
                shred_mode-refused (resolve_shred port config),
                shred_refused_live port config,
              ),
          (
            lines-errors_of (codes "titan_ws")
                ∙ ground (
                  arith,
                  titan_mode-refused (resolve_titan decode config),
                  titan_refused_live decode config,
                ),
            tt,
          ),
        ),
      ),
    ),
  )
