-- ===== src/Service/Tests.antt =====
-- The start of the program and its endpoints at concrete inputs.
use feed_mux.Prelude.{
  ℕ, ◌≡◌, refl, ◌++◌, List, [], ◌∷◌, Bool, true, false, ◌&&◌, ◌||◌, not, Option, none, some, is_ok,
  if◌then◌else◌, Text, codes, Result, ok, All, replicate,
}
use feed_mux.Config.{Config, Base58Decode, from_env}
use feed_mux.Fanout.{RedisFanout, FeedPayload, connect}
use feed_mux.Fanout
use feed_mux.Fanout.Tally.{live}
use feed_mux.Upstream.TritonShred.{ShredStats}
use feed_mux.Upstream.Live.{resolve_shred, shred_bind_conflicts_with_keep}
use feed_mux.Service.Mock.{mock_loop}
use feed_mux.Service.Http.{PublishRequest, payload_of, publish}
use feed_mux.Service.Http.Answers.{messages, delivered, status_of, publish_lem}
use feed_mux.Service.Start.{
  Started, run, spawn_feeds, spawn_mock_publisher, spawn_titan_server, spawn_triton_server,
  started_with,
}
use feed_mux.Service.Start.Tasks.{
  Libraries, mock_sends, poll_sends, http_sends, ended, no_task, with_task,
}
use feed_mux.Service.Start.Ready.{IsSound, run-IsSound}
use feed_mux.Service.Start.Ownership.Alone.{OwnOnly}
use feed_mux.Service.Start.Ownership.Started.{run-OwnOnly}
use feed_mux.Service.Start.{spawn_live, spawn_shred, spawn_titan, spawn_triton, http_server}
use feed_mux.Upstream.Live.{resolve_titan, resolve_triton}
use feed_mux.Shred.VaultWatch.{from_pubkeys}
use feed_mux.Service.Start.{Task, shred_live, heartbeats, polls}
use feed_mux.Service.Start.Tasks.{heartbeat_sends, shred_sends, from_first, from_second}
use feed_mux.Fanout.{Command, heartbeat, reset_shred_state_at_boot, set_shred_upstream_up}
use feed_mux.Upstream.TritonShred.{run_udp_loop}
use feed_mux.Service.Start.DryRun.{run-RunsTo_dry}

abbrev decode : Base58Decode
decode s = some (replicate 32 7)

abbrev identity : List ℕ → Text
identity bytes = bytes

abbrev event_json : {J : Type 0} → FeedPayload J → Result Text Text
event_json payload = ok payload.event

abbrev request : PublishRequest ℕ
request = record { event = none; source = some (codes "probe"); data_json = some 3 }

publish_lem_example :
    (status_of
        (publish event_json
          (live (codes "feed:350"))
          request
          (codes "now")
          (some (codes "broken pipe"))).1
      ≡ (if is_ok (event_json (payload_of request (codes "now"))) && (false || (true && not true))
          then 200
          else 503))
    × (delivered
          (publish event_json
            (live (codes "feed:350"))
            request
            (codes "now")
            (some (codes "broken pipe"))).1
        ≡ (is_ok (event_json (payload_of request (codes "now"))) && true && true && not true))
    × ((publish event_json
          (live (codes "feed:350"))
          request
          (codes "now")
          (some (codes "broken pipe"))).0
        ≡ messages (live (codes "feed:350")) (event_json (payload_of request (codes "now"))))
publish_lem_example =
    publish_lem event_json (live (codes "feed:350")) request (codes "now")
      (some (codes "broken pipe"))

abbrev defaults : Config
defaults = from_env decode (λ key. none)

abbrev listening : Config
listening = record defaults {
  bind_addr = codes "127.0.0.1:8787";
  redis_url = some (codes "redis://127.0.0.1");
  redis_channel = codes "feed:350";
  enable_titan_ws = false;
  enable_triton_grpc = false;
  shred_hit_ttl_secs = 2;
  shred_udp_prefix_skip = 0;
  enable_triton_shred = true;
  dry_run = false;
  shred_bind = codes "0.0.0.0:8003";
  shred_watch_vaults = replicate 32 7 ∷ [];
}

abbrev port : Text → Option ℕ
port bind = some 8003

abbrev bound : ShredStats
bound = record {
  shreds = 4;
  txs_deshredded = 2;
  vault_hits = 1;
  last_ms = 1000;
  last_hit_ms = 900;
  bound = true;
}

abbrev every : Text → Bool
every s = true

run-IsSound_example :
    (started : Started) × (run decode identity port every every every listening ≡ some started)
    × All (IsSound decode identity port listening) started.tasks
run-IsSound_example = run-IsSound decode identity port listening every every every

abbrev lib : Libraries
lib = record {
  U = ℕ;
  J = ℕ;
  base58_decode = decode;
  base58_encode = identity;
  row_json = λ row. ok row.pair;
  doc_json = λ doc. ok doc.schema;
  feed_json = event_json;
  hit_json = λ row. ok row.vault;
  wake_json = event_json;
  mock_json = event_json;
  publish_json = event_json;
}

abbrev quiet : Config
quiet = record defaults {
  dry_run = true;
  enable_titan_ws = false;
  enable_triton_grpc = false;
  mock_publish_interval_secs = 30;
}

-- The mock publisher has published two ticks, and the HTTP server one message.
abbrev begun : Started
begun = started_with every every every quiet (spawn_mock_publisher quiet)

run-RunsTo_dry_example : begun.commands ++ [] ≡ []
unfolding run spawn_feeds spawn_mock_publisher spawn_titan_server spawn_triton_server mock_loop
    publish Fanout.publish connect
run-RunsTo_dry_example = run-RunsTo_dry lib port every every every quiet [] begun refl refl (
    with_task [] (mock_sends ((codes "t1", none) ∷ (codes "t2", none) ∷ []))
      (with_task [] poll_sends
        (with_task [] (http_sends ((request, codes "t3", none) ∷ [])) no_task ended) ended)
      ended)

-- The shred listener and the heartbeat, outside a dry run.
abbrev shred_task : Task
shred_task = shred_live (codes "0.0.0.0:8003") (from_pubkeys identity (replicate 32 7 ∷ [])) 2 0

abbrev running : Started
running = started_with every every every listening (shred_task ∷ heartbeats ∷ [])

abbrev shred_start : List Command
shred_start = reset_shred_state_at_boot (live (codes "feed:350"))

-- A heartbeat reaches Redis before the listener has reset its keys.
abbrev mixed : List Command
mixed = heartbeat (live (codes "feed:350")) 1000 ++ shred_start

run-OwnOnly_example : OwnOnly lib (live (codes "feed:350")) shred_task mixed
unfolding run spawn_feeds spawn_live spawn_shred spawn_titan spawn_triton resolve_shred
    resolve_titan resolve_triton shred_bind_conflicts_with_keep spawn_titan_server
    spawn_triton_server connect heartbeat reset_shred_state_at_boot set_shred_upstream_up
    run_udp_loop
run-OwnOnly_example =
    run-OwnOnly lib port every every every listening running []
      (heartbeats ∷ polls ∷ http_server (codes "127.0.0.1:8787") ∷ []) shred_task mixed refl refl
      (with_task (set_shred_upstream_up (live (codes "feed:350")) true) (shred_sends true [])
        (with_task [] (heartbeat_sends (1000 ∷ []))
          (with_task [] poll_sends (with_task [] (http_sends []) no_task ended) ended)
          (from_first ended))
        (from_second (
          from_first
            (from_first (from_first (from_first (from_first (from_first (from_first ended)))))))))
