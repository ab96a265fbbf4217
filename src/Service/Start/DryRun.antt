-- ===== src/Service/Start/DryRun.antt =====
-- A dry run sends nothing to Redis.
use feed_mux.Prelude.{
  some-injective, ℕ, ◌+◌, ◌%◌, ◌^◌, ◌≡◌, refl, sym, ◌∙◌, arith, List, [], ◌∷◌, ◌++◌, Bool, true,
  Option, some, Text, Result, All, Result-cases, inl, inr, ap, ap₂, subst, some-injective,
}
use feed_mux.Config.{Config}
use feed_mux.Fanout.{
  Command, RedisFanout, FeedPayload, connect, heartbeat, reset_titan_state_at_boot,
}
use feed_mux.Fanout
use feed_mux.Service.Mock.{MockRow, mock_loop, mock_payload}
use feed_mux.Service.Http.{PublishRequest, payload_of}
use feed_mux.Service.Http
use feed_mux.Service.Start.{
  Task, titan_server, triton_server, mock_publisher, titan_live, triton_live, shred_live,
  heartbeats, polls, http_server, Started, run,
}
use feed_mux.Service.Start.Tasks.{
  Libraries, Sends, titan_server_sends, triton_server_sends, mock_sends, poll_sends, http_sends,
  Between, RunsTo, no_task, with_task, requests,
}
use feed_mux.Service.Start.Shape.{run-started_with}
use feed_mux.Service.Start.Ready.{IsSound, run-IsSound}

publish_dry :
    {P : Type 0} (fanout : RedisFanout) (to_json : P → Result Text Text) (payload : P)
    (reply : Option Text)
    → fanout.dry_run ≡ true
    → (Fanout.publish fanout to_json payload reply).0 ≡ []
unfolding Fanout.publish
publish_dry fanout to_json payload reply dry = elim (Result-cases (to_json payload)) [
  | inl (json, h) ↦ rw (Fanout.publish, h, dry) refl
  | inr (e, h) ↦ rw (Fanout.publish, h) refl
]

mock_loop_dry :
    (mock_json : FeedPayload MockRow → Result Text Text) (fanout : RedisFanout) (tick : ℕ)
    (turns : List (Text × Option Text))
    → fanout.dry_run ≡ true
    → mock_loop mock_json fanout tick turns ≡ []
unfolding mock_loop
mock_loop_dry mock_json fanout tick [] dry = refl
mock_loop_dry mock_json fanout tick ((now_text, reply) ∷ turns) dry =
    let tick' = (tick + 1) % 2 ^ 64 in
    ap₂ (λ cs ds. cs ++ ds)
      (publish_dry fanout mock_json (mock_payload fanout tick' now_text) reply dry)
      (mock_loop_dry mock_json fanout tick' turns dry)

append-is_nil : {A : Type 0} (xs ys : List A) → xs ++ ys ≡ [] → xs ≡ []
append-is_nil [] ys h = refl
append-is_nil (x ∷ xs) ys h = absurd (ground (arith, h))

Between-nil :
    {A : Type 0} (cs later ds es : List A) → Between cs ds es → cs ++ later ≡ [] → ds ≡ [] → es ≡ []
Between-nil [] later [] [] b h k = refl
Between-nil [] later [] (e ∷ es) b h k = elim b [ ]
Between-nil (c ∷ cs) later ds es b h k = absurd (ground (arith, h))
Between-nil [] later (d ∷ ds) es b h k = absurd (ground (arith, k))

module _ (lib : Libraries) (port : Text → Option ℕ) (config : Config) (fanout : RedisFanout)
    (dry : fanout.dry_run ≡ true) (same : config.dry_run ≡ true) where
  abbrev Sound : Task → Type 0
  Sound = IsSound lib.base58_decode lib.base58_encode port config

  requests_dry :
      (rs : List (PublishRequest lib.J × Text × Option Text)) → requests lib fanout rs ≡ []
  unfolding Http.publish
  requests_dry [] = refl
  requests_dry ((req, now_text, reply) ∷ rs) =
      ap₂ (λ cs ds. cs ++ ds)
        (publish_dry fanout lib.publish_json (payload_of req now_text) reply dry) (requests_dry rs)

  Sends-nil : (t : Task) (cs : List Command) → Sound t → Sends lib fanout t cs → cs ≡ []
  Sends-nil (titan_server bind) _ h titan_server_sends = refl
  Sends-nil (triton_server bind) _ h triton_server_sends = refl
  Sends-nil (mock_publisher n) _ h (mock_sends turns) =
      mock_loop_dry lib.mock_json fanout 0 turns dry
  Sends-nil (titan_live url wallet sizes ttl) _ h s = absurd (ground (arith, h, same))
  Sends-nil (triton_live url token) _ h s = absurd (ground (arith, h, same))
  Sends-nil (shred_live bind vaults ttl skip) _ h s = absurd (ground (arith, h, same))
  Sends-nil heartbeats _ h s = absurd (ground (arith, h, same))
  Sends-nil polls _ h poll_sends = refl
  Sends-nil (http_server bind) _ h (http_sends rs) = requests_dry rs

  RunsTo-nil :
      (ts : List Task) (log : List Command) → All Sound ts → RunsTo lib fanout ts log → log ≡ []
  RunsTo-nil [] _ h no_task = refl
  RunsTo-nil (t ∷ ts) log h (with_task later s r b) =
      Between-nil _ later _ log b (Sends-nil t _ h.0 s) (RunsTo-nil ts _ h.1 r)

-- In a dry run none of the tasks that the program starts sends a command to Redis at any time:
-- whatever the inputs of the tasks, however far each has come and in whatever order their commands
-- would reach Redis, none does, and the start itself sends none.
pub run-RunsTo_dry :
    (lib : Libraries) (port : Text → Option ℕ) (opens connects binds : Text → Bool)
    (config : Config) (log : List Command) (started : Started)
    → config.dry_run ≡ true
    → run lib.base58_decode lib.base58_encode port opens connects binds config ≡ some started
    → RunsTo lib started.fanout started.tasks log
    → started.commands ++ log ≡ []
unfolding run connect
run-RunsTo_dry lib port opens connects binds config log started same e r =
    let (feeds, f, there_are) =
      run-started_with lib.base58_decode lib.base58_encode port opens connects binds config started
        e in
    let (there, e', sound) =
      run-IsSound lib.base58_decode lib.base58_encode port config opens connects binds in
    let sound' : All (IsSound lib.base58_decode lib.base58_encode port config) started.tasks =
      subst (λ x. All (IsSound lib.base58_decode lib.base58_encode port config) x.tasks)
        (some-injective there started (sym e' ∙ e)) sound in
    let dry : started.fanout.dry_run ≡ true = ap (λ x. x.fanout.dry_run) f ∙ same in
    let silent : started.commands ≡ [] = ap (λ x. x.commands) f ∙ rw same refl in
    ap₂ (λ cs ds. cs ++ ds) silent
      (RunsTo-nil lib port config started.fanout dry same started.tasks log sound' r)
