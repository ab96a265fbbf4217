-- ===== src/Service/Start/Tasks.antt =====
-- What the tasks of the program send to Redis, alone and together: the commands of a task for each
-- history of its inputs, and every order in which those of all tasks can reach Redis.
use feed_mux.Prelude.{ℕ, ◌*◌, List, [], ◌∷◌, ◌++◌, Bool, true, false, Option, Text, Result}
use feed_mux.Config.{Base58Decode}
use feed_mux.Fanout.{Command, RedisFanout, FeedPayload, ShredHitRow, heartbeat}
use feed_mux.Shred.VaultWatch.{VaultWatchSet}
use feed_mux.Reconnect.{new_backoff, nanos_per_sec}
use feed_mux.Titan.Registry.{cleared}
use feed_mux.Titan.Board.{TitanSizeBoardDoc, cleared_board}
use feed_mux.Titan.Message.{TitanHop1Row}
use feed_mux.Titan.Session
use feed_mux.Upstream.Triton
use feed_mux.Upstream.TritonShred.{WakeRow, Datagram, new_stats, run_udp_loop}
use feed_mux.Service.Mock.{MockRow, mock_loop}
use feed_mux.Service.Http.{PublishRequest, publish}
use feed_mux.Service.Start.{
  Task, titan_server, triton_server, mock_publisher, titan_live, triton_live, shred_live,
  heartbeats, polls, http_server,
}

-- The libraries: bs58, serde_json for each kind of object, and the types of the others' data.
pub record Libraries : Type 1 where
  pub U : Type 0
  pub J : Type 0
  pub base58_decode : Base58Decode
  pub base58_encode : List ℕ → Text
  pub row_json : TitanHop1Row → Result Text Text
  pub doc_json : TitanSizeBoardDoc → Result Text Text
  pub feed_json : FeedPayload Triton.UpdateRow → Result Text Text
  pub hit_json : ShredHitRow → Result Text Text
  pub wake_json : FeedPayload WakeRow → Result Text Text
  pub mock_json : FeedPayload MockRow → Result Text Text
  pub publish_json : FeedPayload J → Result Text Text

-- A list in which the elements of two lists alternate in some way, each list in its order.
pub data Between {ℓ} {A : Type ℓ} : List A → List A → List A → Type ℓ where
  ended : Between [] [] []
  from_first : {c : A} {cs ds es : List A} → Between cs ds es → Between (c ∷ cs) ds (c ∷ es)
  from_second : {c : A} {cs ds es : List A} → Between cs ds es → Between cs (c ∷ ds) (c ∷ es)

module _ (lib : Libraries) (fanout : RedisFanout) where
  abbrev pub titan_start : Session.Shared
  titan_start = record {
    connected = false;
    relayed = [];
    registry = cleared;
    board = cleared_board;
    redis = [];
    written = [];
  }

  abbrev pub triton_start : Triton.TritonShared lib.U
  triton_start = record { connected = false; auth_blocked = false; relayed = []; redis = [] }

  abbrev pub titan_log : Text → List ℕ → List ℕ → ℕ → List Session.Script → List Command
  titan_log url wallet sizes ttl scripts =
      (Session.run_live_loop lib.base58_decode lib.base58_encode lib.row_json lib.doc_json fanout
        true ttl sizes wallet scripts
        (titan_start, new_backoff (5 * nanos_per_sec) (30 * nanos_per_sec))).0.redis

  abbrev triton_log : Text → List (Triton.TritonScript lib.U) → List Command
  triton_log url scripts =
      (Triton.run_triton_loop lib.feed_json fanout true url scripts (
        triton_start,
        new_backoff (5 * nanos_per_sec) (30 * nanos_per_sec),
        Triton.running,
      )).0.redis

  abbrev pub beats : List ℕ → List Command
  beats [] = []
  beats (now ∷ times) = heartbeat fanout now ++ beats times

  abbrev pub requests : List (PublishRequest lib.J × Text × Option Text) → List Command
  requests [] = []
  requests ((req, now_text, reply) ∷ rest) =
      (publish lib.publish_json fanout req now_text reply).0 ++ requests rest

  -- The commands of a task.
  pub data Sends : Task → List Command → Type 0 where
    titan_server_sends : {bind : Text} → Sends (titan_server bind) []
    triton_server_sends : {bind : Text} → Sends (triton_server bind) []
    mock_sends :
        {n : ℕ} (turns : List (Text × Option Text))
        → Sends (mock_publisher n) (mock_loop lib.mock_json fanout 0 turns)
    titan_sends :
        {url : Text} {wallet sizes : List ℕ} {ttl : ℕ} (scripts : List Session.Script)
        → Sends (titan_live url wallet sizes ttl) (titan_log url wallet sizes ttl scripts)
    triton_sends :
        {url : Text} {token : Option Text} (scripts : List (Triton.TritonScript lib.U))
        → Sends (triton_live url token) (triton_log url scripts)
    shred_sends :
        {bind : Text} {vaults : VaultWatchSet} {ttl skip : ℕ} (binds : Bool) (ds : List Datagram)
        → Sends
            (shred_live bind vaults ttl skip)
            (run_udp_loop lib.base58_encode lib.hit_json lib.wake_json fanout vaults ttl skip binds
              ds new_stats).redis
    heartbeat_sends : (times : List ℕ) → Sends heartbeats (beats times)
    poll_sends : Sends polls []
    http_sends :
        {bind : Text} (rs : List (PublishRequest lib.J × Text × Option Text))
        → Sends (http_server bind) (requests rs)

  -- The commands that have reached Redis of a run of the tasks, each of them somewhere in its history.
  pub data RunsTo : List Task → List Command → Type 0 where
    no_task : RunsTo [] []
    with_task :
        {t : Task} {ts : List Task} {cs ds es : List Command} (later : List Command)
        → Sends t (cs ++ later)
        → RunsTo ts ds
        → Between cs ds es
        → RunsTo (t ∷ ts) es
