-- ===== src/Config/Tests.antt =====
-- A configuration from an environment, and the theorem on the summary at it.
use feed_mux.Prelude.{◌≡◌, refl, false, none, some, if◌then◌else◌, codes, text_eq}
use feed_mux.Prelude.Words.{parse_unsigned, parse_digits}
use feed_mux.Config.{
  Config, Env, Base58Decode, from_env, redacted_summary, env_optional, env_bool, env_u32,
}
use feed_mux.Config.Secrets.{with_secrets, redacted_summary-with_secrets}

abbrev env : Env
env key =
    if text_eq key (codes "DRY_RUN")
    then some (codes "Off")
    else if text_eq key (codes "REDIS_URL")
    then some (codes "redis://:secret@host")
    else if text_eq key (codes "TITAN_RATE_LIMIT_RPS")
    then some (codes "x")
    else if text_eq key (codes "TRITON_RATE_LIMIT_RPS")
    then some (codes "40")
    else none

abbrev no_base58 : Base58Decode
no_base58 s = none

abbrev config : Config
config = from_env no_base58 env

live_with_defaults :
    (config.dry_run ≡ false)
    × (config.titan_rate_limit_rps ≡ 15)
    × (config.triton_rate_limit_rps ≡ 40)
unfolding from_env env_bool env_u32 parse_unsigned parse_digits
live_with_defaults = (refl, refl, refl)

redacted_summary-with_secrets_example :
    redacted_summary (
      with_secrets config
        (some (codes "r"))
        none
        none
        (some (codes "t"))
        none
        none
        (some (codes "c"))
        none)
    ≡ redacted_summary config
unfolding from_env env_optional
redacted_summary-with_secrets_example =
    redacted_summary-with_secrets config (some (codes "r")) none none (some (codes "t")) none none
      (some (codes "c")) none refl refl refl
