-- ===== src/Service/Mock.antt =====
-- src/mock.rs: the publisher of a dry run. A turn of its loop comes with its time as a text and the
-- answer of Redis; `mock_json` stands for serde_json. The tick wraps at 2^64.
use feed_mux.Prelude.{
  ℕ, ◌+◌, ◌%◌, ◌^◌, List, [], ◌∷◌, ◌++◌, Bool, Option, some, Text, codes, Result,
}
use feed_mux.Fanout.{Command, RedisFanout, FeedPayload, publish}

-- The `json!` object of a tick.
pub record MockRow : Type 0 where
  pub tick : ℕ
  pub dry_run : Bool
  pub note : Text

unfoldable pub mock_payload : RedisFanout → ℕ → Text → FeedPayload MockRow
mock_payload fanout tick now_text = record {
  event = codes "mock.tick";
  source = codes "feed-mux";
  ts = now_text;
  data_json = some (record {
    tick = tick;
    dry_run = fanout.dry_run;
    note = codes "MVP mock event for Bot 350 / python 35-bot consumers";
  });
}

-- The commands of the loop from a tick on.
unfoldable pub mock_loop :
    (FeedPayload MockRow → Result Text Text)
    → RedisFanout
    → ℕ
    → List (Text × Option Text)
    → List Command
unfolding mock_payload publish
mock_loop mock_json fanout tick [] = []
mock_loop mock_json fanout tick ((now_text, reply) ∷ turns) =
    let tick' = (tick + 1) % 2 ^ 64 in
    (publish fanout mock_json (mock_payload fanout tick' now_text) reply).0
    ++ mock_loop mock_json fanout tick' turns
