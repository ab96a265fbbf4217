-- ===== src/Service/Start/Accounts.antt =====
-- The Titan counters in Redis while all tasks of the program run.
use feed_mux.Prelude.{
  All-imp, ◌*◌, ℕ, ◌^◌, ◌<◌, ◌≡◌, refl, sym, subst, ap, ◌∙◌, arith, List, [], ◌∷◌, ◌++◌, Bool, true,
  false, Option, some, Text, ok, All, filter, length, if◌then◌else◌,
}
use feed_mux.Config.{Config}
use feed_mux.Fanout.{
  Command, reset_titan_state_at_boot, connect, record_titan_decode_error, set_titan_upstream_up,
  record_titan_message, publish_titan_hop1, publish_titan_size_board,
}
use feed_mux.Fanout.Keys
use feed_mux.Fanout.Silence.{Call, message, commands}
use feed_mux.Fanout.Counters.{Server, gains, count_zeroes, exec_all, exec_all-append}
use feed_mux.Fanout.Arrivals.{AddsOne}
use feed_mux.Fanout.Tally.{live, total}
use feed_mux.Reconnect.{new_backoff, nanos_per_sec}
use feed_mux.Titan.Message.{TitanHop1Row, TitanMessageKind}
use feed_mux.Titan.Message.Effects.{published, failed, unread}
use feed_mux.Titan.Session.{Script}
use feed_mux.Titan.Session.Sends.{IsTitanCall, run_live_loop-Kept}
use feed_mux.Titan.Session.History.{history}
use feed_mux.Titan.Session.Counted.{Adds, run_live_loop-Has}
use feed_mux.Titan.Session.Tallied.{hop1_served-Adds, decoded-Adds, errors-Adds, fell_through-Adds}
use feed_mux.Service.Start.{Task, titan_live, Started, fanout_of, run}
use feed_mux.Service.Start.Settled.{Settled, settle}
use feed_mux.Service.Start.Shape.{run-started_with}
use feed_mux.Service.Start.Tasks.{Libraries, Between, RunsTo, titan_start, titan_log}
use feed_mux.Service.Start.Ownership.{titan_key}
use feed_mux.Service.Start.Ownership.Alone.{writes, All-prefix, Between-own}
use feed_mux.Service.Start.Ownership.Started.{run-AllApart}

-- Each command of the Titan methods adds at most 1 to each counter.
OneEach : Command → Type 0
OneEach c =
    AddsOne Keys.titan_hop1_served c
    × AddsOne Keys.titan_decoded c
    × AddsOne Keys.titan_errors c
    × AddsOne Keys.titan_fell_through c

titan_calls-OneEach :
    (channel : Text) (c : Call) → IsTitanCall c → All OneEach (commands (live channel) c)
unfolding OneEach record_titan_decode_error set_titan_upstream_up record_titan_message
    publish_titan_hop1 publish_titan_size_board Keys.hop1_row_key
titan_calls-OneEach channel (message o now) h = ground arith
titan_calls-OneEach channel _ h = ground (arith, h)

module _ (server : Server) (lib : Libraries) (channel : Text) (url : Text) (wallet sizes : List ℕ)
    (ttl : ℕ) where
  abbrev messages : List Script → List TitanMessageKind
  messages scripts =
      history lib.base58_decode lib.base58_encode lib.row_json lib.doc_json (live channel) ttl true
        sizes wallet scripts
        (titan_start lib (live channel), new_backoff (5 * nanos_per_sec) (30 * nanos_per_sec))

  abbrev titan_sent : List Script → List Command
  titan_sent = titan_log lib (live channel) url wallet sizes ttl

  -- What the counters show after the given sessions of the Titan task, while the commands of `later`
  -- are on their way.
  pub record Accounted (scripts : List Script) (later : List Command) (s : Server.State server)
      : Type 0 where
    pub hop1_served :
        Settled server s Keys.titan_hop1_served later (total published (messages scripts))
    pub decoded : Settled server s Keys.titan_decoded later (total published (messages scripts))
    pub error_count : Settled server s Keys.titan_errors later (total failed (messages scripts))
    pub fell : Settled server s Keys.titan_fell_through later (total unread (messages scripts))

  module _ (serial : (row : TitanHop1Row) → (json : Text) × (lib.row_json row ≡ ok json)) where
    titan_gains :
        (k : Text) (by : TitanMessageKind → ℕ) (scripts : List Script)
        → Adds lib.base58_decode lib.base58_encode lib.row_json lib.doc_json channel true ttl k by
        → gains k (titan_sent scripts) ≡ some (total by (messages scripts))
    titan_gains k by scripts adds =
        run_live_loop-Has lib.base58_decode lib.base58_encode lib.row_json lib.doc_json channel true
          ttl k by adds sizes wallet scripts (titan_start lib (live channel)) _ 0 refl
        ∙ ap some (omega arith)

    titan_OneEach :
        (scripts : List Script) (own later : List Command)
        → titan_sent scripts ≡ own ++ later
        → All OneEach own
    titan_OneEach scripts own later e = All-prefix OneEach own later (
        subst (All OneEach) e (
          run_live_loop-Kept (live channel) OneEach (titan_calls-OneEach channel) true
            lib.base58_decode lib.base58_encode lib.row_json lib.doc_json ttl sizes wallet scripts _
            tt))

    abbrev Key : Text → (TitanMessageKind → ℕ) → Type 0
    Key = Adds lib.base58_decode lib.base58_encode lib.row_json lib.doc_json channel true ttl

    settled :
        (k : Text) (by : TitanMessageKind → ℕ) (s : Server.State server)
        (log own later : List Command) (scripts : List Script)
        → titan_key k ≡ true
        → ((c : Command) → OneEach c → AddsOne k c)
        → Key k by
        → titan_sent scripts ≡ own ++ later
        → filter (writes titan_key) log ≡ filter (writes titan_key) own
        → length log < 2 ^ 63
        → server.count k s ≡ some 0
        → Settled server (exec_all server log s) k later (total by (messages scripts))
    settled k by s log own later scripts mine one adds e same fits zero =
        settle server s titan_key k log own later (total by (messages scripts)) mine same
          (All-imp OneEach (AddsOne k) own one (titan_OneEach scripts own later e))
          (ap (gains k) (sym e) ∙ titan_gains k by scripts adds) zero fits

    -- The four counters, where they hold 0 at first.
    accounted :
        (s : Server.State server) (log own later : List Command) (scripts : List Script)
        → titan_sent scripts ≡ own ++ later
        → filter (writes titan_key) log ≡ filter (writes titan_key) own
        → length log < 2 ^ 63
        → server.count Keys.titan_hop1_served s ≡ some 0
        → server.count Keys.titan_decoded s ≡ some 0
        → server.count Keys.titan_errors s ≡ some 0
        → server.count Keys.titan_fell_through s ≡ some 0
        → Accounted scripts later (exec_all server log s)
    unfolding OneEach
    accounted s log own later scripts e same fits z1 z2 z3 z4 = record {
      hop1_served =
          settled Keys.titan_hop1_served published s log own later scripts refl (λ c o. o.0)
            (hop1_served-Adds lib.base58_decode lib.base58_encode lib.row_json lib.doc_json channel
              true ttl sizes wallet serial)
            e same fits z1;
      decoded =
          settled Keys.titan_decoded published s log own later scripts refl (λ c o. o.1)
            (decoded-Adds lib.base58_decode lib.base58_encode lib.row_json lib.doc_json channel true
              ttl sizes wallet serial)
            e same fits z2;
      error_count =
          settled Keys.titan_errors failed s log own later scripts refl (λ c o. o.2)
            (errors-Adds lib.base58_decode lib.base58_encode lib.row_json lib.doc_json channel true
              ttl sizes wallet serial)
            e same fits z3;
      fell =
          settled Keys.titan_fell_through unread s log own later scripts refl (λ c o. o.3)
            (fell_through-Adds lib.base58_decode lib.base58_encode lib.row_json lib.doc_json channel
              true ttl sizes wallet serial)
            e same fits z4;
    }

-- A start with a live fan-out resets the Titan state.
commands-reset :
    (lib : Libraries) (port : Text → Option ℕ) (opens connects binds : Text → Bool)
    (config : Config) (started : Started) (channel : Text)
    → run lib.base58_decode lib.base58_encode port opens connects binds config ≡ some started
    → started.fanout ≡ live channel
    → started.commands ≡ reset_titan_state_at_boot (live channel)
unfolding connect
commands-reset lib port opens connects binds config started channel e there =
    let (feeds, same, _) =
      run-started_with lib.base58_decode lib.base58_encode port opens connects binds config started
        e in
    let f : fanout_of opens connects binds config ≡ live channel =
      sym (ap (λ x. x.fanout) same) ∙ there in
    let wet : config.dry_run ≡ false = ap (λ x. x.dry_run) f in
    let boot = reset_titan_state_at_boot (fanout_of opens connects binds config) in
    ap (λ x. x.commands) same
    ∙ ap (λ dry. if dry then [] else boot) wet
    ∙ ap reset_titan_state_at_boot f

-- The Titan task has had the sessions `scripts`; of the commands that these make it send, `own` have
-- reached Redis and `later` are on their way; the log is `own` and the commands of the other tasks,
-- however far each of them has come, in any order that keeps those of a task in theirs. Then, for
-- each of the counters, what Redis shows and what is on its way add up to a number of the messages
-- of those sessions: `hop1_served` and `decoded` to that of stream data with a quote,
-- `errors` to that of the messages that do not decode or are RPC errors, and `fell_through`
-- to that of stream data without such a quote and of unknown messages. Conditions: the program has
-- started the task, the fan-out is live, rows serialize, and the log has fewer than 2^63 commands.
pub run-Accounted :
    (server : Server) (s : Server.State server) (lib : Libraries) (port : Text → Option ℕ)
    (opens connects binds : Text → Bool) (config : Config) (started : Started)
    (before after : List Task) (channel url : Text) (wallet sizes : List ℕ) (ttl : ℕ)
    (scripts : List Script) (own later others log : List Command)
    → run lib.base58_decode lib.base58_encode port opens connects binds config ≡ some started
    → started.fanout ≡ live channel
    → started.tasks ≡ before ++ (titan_live url wallet sizes ttl ∷ after)
    → titan_log lib started.fanout url wallet sizes ttl scripts ≡ own ++ later
    → RunsTo lib started.fanout (before ++ after) others
    → Between own others log
    → ((row : TitanHop1Row) → (json : Text) × (lib.row_json row ≡ ok json))
    → length log < 2 ^ 63
    → Accounted server lib channel url wallet sizes ttl scripts later
        (exec_all server (started.commands ++ log) s)
unfolding reset_titan_state_at_boot
run-Accounted server s lib port opens connects binds config started before after channel url wallet
      sizes ttl scripts own later others log e there split sent r b serial fits =
    let boot = reset_titan_state_at_boot (live channel) in
    let same : filter (writes titan_key) log ≡ filter (writes titan_key) own =
      Between-own lib started.fanout (titan_live url wallet sizes ttl) (before ++ after) own others
        log
        (run-AllApart lib port opens connects binds config started before after
          (titan_live url wallet sizes ttl) e split)
        r b in
    let sends : titan_log lib (live channel) url wallet sizes ttl scripts ≡ own ++ later =
      subst (λ f. titan_log lib f url wallet sizes ttl scripts ≡ own ++ later) there sent in
    let reset = commands-reset lib port opens connects binds config started channel e there in
    subst (Accounted server lib channel url wallet sizes ttl scripts later)
      (sym (ap (λ cs. exec_all server (cs ++ log) s) reset ∙ exec_all-append server boot log s))
      (accounted server lib channel url wallet sizes ttl serial (exec_all server boot s) log own
        later scripts sends same fits (count_zeroes server Keys.titan_hop1_served boot s refl)
        (count_zeroes server Keys.titan_decoded boot s refl)
        (count_zeroes server Keys.titan_errors boot s refl)
        (count_zeroes server Keys.titan_fell_through boot s refl))
