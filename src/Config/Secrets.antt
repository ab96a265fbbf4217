-- ===== src/Config/Secrets.antt =====
-- What the summary for the logs shows of the secrets.
use feed_mux.Prelude.{◌≡◌, Option, Text, is_some, arith}
use feed_mux.Config.{Config, redacted_summary}

abbrev pub with_secrets :
    Config
    → Option Text
    → Option Text
    → Option Text
    → Option Text
    → Option Text
    → Option Text
    → Option Text
    → Option Text
    → Config
with_secrets c redis wallet token titan triton helius chainstack chainstack_ws = record c {
  redis_url = redis;
  titan_wallet_pubkey = wallet;
  triton_grpc_token = token;
  titan_ws_url = titan;
  triton_grpc_url = triton;
  helius_rpc_url = helius;
  chainstack_rpc_url = chainstack;
  chainstack_ws_url = chainstack_ws;
}

-- The summary depends on the Redis URL, the wallet and the Triton token only by whether they are
-- set, and not at all on the URLs of Titan, Triton, Helius and Chainstack.
pub redacted_summary-with_secrets :
    (c : Config) (redis wallet token titan triton helius chainstack chainstack_ws : Option Text)
    → is_some redis ≡ is_some c.redis_url
    → is_some wallet ≡ is_some c.titan_wallet_pubkey
    → is_some token ≡ is_some c.triton_grpc_token
    → redacted_summary
        (with_secrets c redis wallet token titan triton helius chainstack chainstack_ws)
      ≡ redacted_summary c
unfolding redacted_summary
redacted_summary-with_secrets c redis wallet token titan triton helius chainstack chainstack_ws a b
      d =
    ground (arith, a, b, d)
