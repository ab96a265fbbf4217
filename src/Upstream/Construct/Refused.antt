-- ===== src/Upstream/Construct/Refused.antt =====
-- The states in which an upstream refuses to start: what is logged in them and what the status shows.
use feed_mux.Prelude.{
  ℕ, ◌≡◌, refl, arith, List, [], ◌∷◌, ◌++◌, ◌||◌, Bool, true, false, ◌&&◌, not, Option, Text, codes,
  any, text_eq, starts_with,
}
use feed_mux.Config.{Config, Base58Decode}
use feed_mux.Upstream.Live.{
  TitanLiveState, TritonLiveState, ShredLiveState, missing_ws_url, missing_wallet_pubkey,
  invalid_wallet_pubkey, missing_grpc_url, missing_vaults, keep_port_conflict, invalid_bind,
  titan_mode, triton_mode, shred_mode, resolve_titan, resolve_triton, resolve_shred,
}
use feed_mux.Upstream.Lines.{Severity, error_line, LogLine, titan_lines, triton_lines, shred_lines}
use feed_mux.Upstream.Construct.{in_live_mode}

abbrev is_error : Severity → Bool
is_error error_line = true
is_error _ = false

-- Whether an error of the upstream is among the lines.
abbrev pub has_error : Text → List LogLine → Bool
has_error name lines = any (λ l. is_error l.severity && text_eq name l.upstream) lines

pub has_error-append :
    (name : Text) (xs ys : List LogLine)
    → has_error name (xs ++ ys) ≡ (has_error name xs || has_error name ys)
has_error-append name [] ys = refl
has_error-append name (x ∷ xs) ys = ground (arith, has_error-append name xs ys)

pub has_error-in_live_mode :
    (name : Text) (enabled : Bool) (config : Config) (ls : List LogLine)
    → has_error name (in_live_mode enabled config ls)
      ≡ (enabled && not config.dry_run && has_error name ls)
has_error-in_live_mode name enabled config ls = ground arith

-- The states in which an enabled upstream does not start.
abbrev pub titan_refused : TitanLiveState → Bool
titan_refused missing_ws_url = true
titan_refused missing_wallet_pubkey = true
titan_refused invalid_wallet_pubkey = true
titan_refused _ = false

abbrev pub triton_refused : TritonLiveState → Bool
triton_refused missing_grpc_url = true
triton_refused _ = false

abbrev pub shred_refused : ShredLiveState → Bool
shred_refused missing_vaults = true
shred_refused keep_port_conflict = true
shred_refused invalid_bind = true
shred_refused _ = false

pub titan_errors :
    (name : Text) (state : TitanLiveState)
    → has_error name (titan_lines state) ≡ (text_eq name (codes "titan_ws") && titan_refused state)
unfolding titan_lines
titan_errors name missing_ws_url = ground arith
titan_errors name missing_wallet_pubkey = ground arith
titan_errors name invalid_wallet_pubkey = ground arith
titan_errors name TitanLiveState.ready = ground arith
titan_errors name TitanLiveState.disabled = ground arith
titan_errors name TitanLiveState.dry_run_stub = ground arith

pub triton_errors :
    (name : Text) (token : Option Text) (state : TritonLiveState)
    → has_error name (triton_lines token state)
      ≡ (text_eq name (codes "triton_grpc") && triton_refused state)
unfolding triton_lines
triton_errors name token missing_grpc_url = ground arith
triton_errors name token TritonLiveState.ready = ground arith
triton_errors name token TritonLiveState.disabled = ground arith
triton_errors name token TritonLiveState.dry_run_stub = ground arith

pub shred_errors :
    (name : Text) (state : ShredLiveState)
    → has_error name (shred_lines state)
      ≡ (text_eq name (codes "triton_shred_udp") && shred_refused state)
unfolding shred_lines
shred_errors name missing_vaults = ground arith
shred_errors name keep_port_conflict = ground arith
shred_errors name invalid_bind = ground arith
shred_errors name ShredLiveState.ready = ground arith
shred_errors name ShredLiveState.disabled = ground arith
shred_errors name ShredLiveState.dry_run_stub = ground arith

pub titan_mode-refused :
    (state : TitanLiveState)
    → starts_with (titan_mode state false).1 (codes "error/") ≡ titan_refused state
unfolding titan_mode
titan_mode-refused missing_ws_url = refl
titan_mode-refused missing_wallet_pubkey = refl
titan_mode-refused invalid_wallet_pubkey = refl
titan_mode-refused TitanLiveState.ready = refl
titan_mode-refused TitanLiveState.disabled = refl
titan_mode-refused TitanLiveState.dry_run_stub = refl

pub triton_mode-refused :
    (state : TritonLiveState)
    → starts_with (triton_mode state false).1 (codes "error/") ≡ triton_refused state
unfolding triton_mode
triton_mode-refused missing_grpc_url = refl
triton_mode-refused TritonLiveState.ready = refl
triton_mode-refused TritonLiveState.disabled = refl
triton_mode-refused TritonLiveState.dry_run_stub = refl

pub shred_mode-refused :
    (state : ShredLiveState)
    → starts_with (shred_mode state false).1 (codes "error/") ≡ shred_refused state
unfolding shred_mode
shred_mode-refused missing_vaults = refl
shred_mode-refused keep_port_conflict = refl
shred_mode-refused invalid_bind = refl
shred_mode-refused ShredLiveState.ready = refl
shred_mode-refused ShredLiveState.disabled = refl
shred_mode-refused ShredLiveState.dry_run_stub = refl

-- A refusal is one of an upstream in live mode.
pub titan_refused_live :
    (decode : Base58Decode) (config : Config)
    → titan_refused (resolve_titan decode config) ≡ (
        config.enable_titan_ws && not config.dry_run && titan_refused (resolve_titan decode config))
unfolding resolve_titan
titan_refused_live decode config = ground arith

pub triton_refused_live :
    (config : Config)
    → triton_refused (resolve_triton config)
      ≡ (config.enable_triton_grpc && not config.dry_run && triton_refused (resolve_triton config))
unfolding resolve_triton
triton_refused_live config = ground arith

pub shred_refused_live :
    (port : Text → Option ℕ) (config : Config)
    → shred_refused (resolve_shred port config) ≡ (
        config.enable_triton_shred
        && not config.dry_run
        && shred_refused (resolve_shred port config))
unfolding resolve_shred
shred_refused_live port config = ground arith
