-- ===== src/Service/Start/Tests.antt =====
-- The Titan task alone with the heartbeat: two frames of its session do not decode, and the second of
-- the two errors has not reached Redis yet.
use mathlib.Core.Option
use feed_mux.Service.RateLimit.{Governor}
use feed_mux.Upstream.Live.{statuses}
use feed_mux.Upstream.Construct.Refused.{has_error}
use feed_mux.Upstream.Construct.Logged.{lines, fresh, from_config-statuses}
use feed_mux.Service.Start.Refusals.{spawn_live-held_back}
use feed_mux.Prelude.{
  ◌-◌, leb, All, ◌&&◌, is_empty, starts_with, ℕ, ◌≡◌, refl, arith, List, [], ◌∷◌, ◌++◌, Bool, true,
  false, Option, none, some, Text, codes, Result, ok, replicate,
}
use feed_mux.Prelude.Words.{trim, split, parse_unsigned, parse_digits}
use feed_mux.Config.{Config, Base58Decode, from_env, parse_wallet_pubkey}
use feed_mux.Fanout.{
  Command, FeedPayload, connect, heartbeat, record_titan_decode_error, set_titan_upstream_up,
  publish_titan_size_board,
}
use feed_mux.Fanout.Tally.{live}
use feed_mux.Fanout.Store.{store_server}
use feed_mux.Fanout.Counters.{exec_all}
use feed_mux.Titan.Sizes.{parse_hunt_sizes}
use feed_mux.Titan.Session.{
  Script, binary_message, mark_titan_disconnected, mark_connected, send_get_info, send_request,
  subscribe_hunt_streams, with_snapshot, on_binary, read_loop, finish_session, run_session,
  live_turn, run_live_loop,
}
use feed_mux.Titan.Message.{publish_size_board_snapshot, handle_titan_server_message}
use feed_mux.Upstream.Live.{resolve_titan, resolve_triton, resolve_shred, wallet_pubkey_bytes}
use feed_mux.Service.Start.{
  Task, titan_live, titan_server, heartbeats, polls, http_server, Started, started_with, run,
  spawn_feeds, spawn_live, spawn_shred, spawn_titan, spawn_triton, spawn_titan_server,
  spawn_triton_server,
}
use feed_mux.Service.Start.Tasks.{
  Libraries, titan_log, titan_server_sends, heartbeat_sends, poll_sends, http_sends, Between, ended,
  from_first, from_second, no_task, with_task,
}
use feed_mux.Service.Start.Accounts.{Accounted, run-Accounted}

abbrev decode : Base58Decode
decode s = some (replicate 32 7)

abbrev identity : List ℕ → Text
identity bytes = bytes

abbrev event_json : {J : Type 0} → FeedPayload J → Result Text Text
event_json payload = ok payload.event

abbrev lib : Libraries
lib = record {
  U = ℕ;
  J = ℕ;
  base58_decode = decode;
  base58_encode = identity;
  row_json = λ row. ok row.pair;
  doc_json = λ doc. ok doc.schema;
  feed_json = event_json;
  hit_json = λ row. ok row.vault;
  wake_json = event_json;
  mock_json = event_json;
  publish_json = event_json;
}

abbrev defaults : Config
defaults = from_env decode (λ key. none)

abbrev config : Config
config = record defaults {
  bind_addr = codes "127.0.0.1:8787";
  redis_url = some (codes "redis://127.0.0.1");
  redis_channel = codes "feed:350";
  enable_titan_ws = true;
  titan_ws_url = some (codes "wss://titan");
  titan_wallet_pubkey = some (codes "w");
  titan_hunt_size_lamports = some (codes "5");
  titan_hop1_ttl_secs = 2;
  titan_local_bind = codes "127.0.0.1:9011";
  enable_triton_grpc = false;
  enable_triton_shred = false;
  shred_watch_vaults = [];
  dry_run = false;
}

abbrev every : Text → Bool
every s = true

abbrev port : Text → Option ℕ
port bind = none

abbrev sizes : List ℕ
sizes = parse_hunt_sizes (some (codes "5"))

abbrev titan_task : Task
titan_task = titan_live (codes "wss://titan") (replicate 32 7) sizes 2

abbrev started : Started
started = started_with every every every config (titan_task ∷ heartbeats ∷ [])

abbrev script : Script
script = record {
  connecting = none;
  allow = λ id. true;
  encoding = λ id. none;
  send = λ id. none;
  events = binary_message (1 ∷ []) none 10 11 12 ∷ binary_message (2 ∷ []) none 13 14 15 ∷ [];
  connected_for = 0;
  snapshot_at = 9;
}

-- Up to the first error.
abbrev own : List Command
own =
    set_titan_upstream_up (live (codes "feed:350")) false
    ++ set_titan_upstream_up (live (codes "feed:350")) true
    ++ publish_titan_size_board (live (codes "feed:350")) (λ t. ok t)
        (codes "mux.titan.size_board.v1")
    ++ record_titan_decode_error (live (codes "feed:350"))

abbrev later : List Command
later =
    record_titan_decode_error (live (codes "feed:350"))
    ++ set_titan_upstream_up (live (codes "feed:350")) false
    ++ set_titan_upstream_up (live (codes "feed:350")) false

abbrev log : List Command
log = heartbeat (live (codes "feed:350")) 1000 ++ own

config-started :
    run lib.base58_decode lib.base58_encode port every every every config ≡ some started
unfolding run spawn_feeds spawn_live spawn_shred spawn_titan spawn_triton resolve_shred
    resolve_titan resolve_triton spawn_titan_server spawn_triton_server connect wallet_pubkey_bytes
    parse_wallet_pubkey trim
config-started = refl

titan_log-own :
    titan_log lib
      (live (codes "feed:350"))
      (codes "wss://titan")
      (replicate 32 7)
      sizes
      2
      (script ∷ [])
    ≡ own ++ later
unfolding run_live_loop live_turn run_session mark_titan_disconnected mark_connected send_get_info
    send_request subscribe_hunt_streams with_snapshot read_loop on_binary finish_session
    publish_size_board_snapshot handle_titan_server_message parse_hunt_sizes set_titan_upstream_up
    publish_titan_size_board record_titan_decode_error trim split parse_unsigned parse_digits
titan_log-own = refl

all_first : (cs : List Command) → Between cs [] cs
all_first [] = ended
all_first (c ∷ cs) = from_first (all_first cs)

all_second : (cs : List Command) → Between [] cs cs
all_second [] = ended
all_second (c ∷ cs) = from_second (all_second cs)

between : Between own (heartbeat (live (codes "feed:350")) 1000) log
unfolding heartbeat set_titan_upstream_up publish_titan_size_board record_titan_decode_error
between = from_second (all_first own)

run-Accounted_example :
    Accounted store_server lib
      (codes "feed:350")
      (codes "wss://titan")
      (replicate 32 7)
      sizes
      2
      (script ∷ [])
      later
      (exec_all store_server (started.commands ++ log) (λ key. none))
unfolding spawn_titan_server spawn_triton_server connect heartbeat set_titan_upstream_up
    publish_titan_size_board record_titan_decode_error
run-Accounted_example =
    run-Accounted store_server (λ key. none) lib port every every every config started
      (titan_server (codes "127.0.0.1:9011") ∷ [])
      (heartbeats ∷ polls ∷ http_server (codes "127.0.0.1:8787") ∷ []) (codes "feed:350")
      (codes "wss://titan") (replicate 32 7) sizes 2 (script ∷ []) own later
      (heartbeat (live (codes "feed:350")) 1000) log config-started refl refl titan_log-own
      (with_task [] titan_server_sends
        (with_task [] (heartbeat_sends (1000 ∷ []))
          (with_task [] poll_sends (with_task [] (http_sends []) no_task ended) ended)
          (from_first ended))
        (all_second (heartbeat (live (codes "feed:350")) 1000)))
      between (λ row. (row.pair, refl)) (omega arith)

-- A limiter that counts down.
abbrev governor : Governor
governor = record {
  Limiter = ℕ;
  direct = λ quota. quota.burst;
  check = λ now left. (left - 1, leb 1 left);
}

-- The wallet does not decode.
abbrev broken : Config
broken = record config { titan_wallet_pubkey = some (codes " ") }

spawn_live-held_back_example :
    (Option.map is_empty (spawn_triton broken) ≡ some true)
    × (is_empty (spawn_shred decode identity port broken) ≡ true)
    × (Option.map is_empty (spawn_titan decode identity port broken)
        ≡ some (has_error (codes "titan_ws") (lines governor decode port broken)))
spawn_live-held_back_example = spawn_live-held_back governor decode identity port broken

from_config-statuses_example :
    All
      (λ s.
        has_error s.name (lines governor decode port broken)
        ≡ (s.enabled && starts_with s.mode (codes "error/")))
      (statuses decode port broken fresh)
from_config-statuses_example = from_config-statuses governor decode port broken
