-- ===== src/Fanout/Tally.antt =====
-- What the Titan counters show after a boot and any sequence of calls.
use feed_mux.Prelude.{
  ℕ, ◌+◌, ◌^◌, ◌≤◌, ◌<◌, ◌≡◌, refl, ap, ◌∙◌, List, [], ◌∷◌, ◌++◌, true, false, some, arith, Text,
  ok, All, length,
}
use feed_mux.Fanout.{
  Command, RedisFanout, quote_published, rpc_error, unhandled, reset_titan_state_at_boot,
  reset_shred_state_at_boot, heartbeat, set_titan_upstream_up, set_triton_upstream_up,
  set_shred_upstream_up, record_titan_decode_error, record_titan_message, publish_titan_hop1,
  publish_titan_size_board, record_shred_frame, record_shred_deshred, publish_shred_hit,
  record_triton_frame, publish,
}
use feed_mux.Fanout.Silence.{Call, reset_titan, decode_error, message, hop1, commands}
use feed_mux.Fanout.Counters.{
  Server, plus_cases, gain, gains, exec_all, exec_all-append, count-exec_all, zeroes, count_zeroes,
}
use feed_mux.Fanout.Keys

-- A fan-out that writes.
abbrev pub live : Text → RedisFanout
live channel = record { channel = channel; dry_run = false; conn = true }

abbrev pub IsRunning : Call → Type 0
IsRunning reset_titan = ⊥
IsRunning _ = Unit

-- How often a call counts under each key.
abbrev pub hop1_rows : Call → ℕ
hop1_rows (hop1 (ok json) pair size ttl) = 1
hop1_rows _ = 0

abbrev pub quotes : Call → ℕ
quotes (message quote_published now) = 1
quotes _ = 0

abbrev pub errors : Call → ℕ
errors decode_error = 1
errors (message rpc_error now) = 1
errors _ = 0

abbrev pub fell_through : Call → ℕ
fell_through (message unhandled now) = 1
fell_through _ = 0

abbrev pub never : Call → ℕ
never c = 0

abbrev pub total : {A : Type 0} → (A → ℕ) → List A → ℕ
total by [] = 0
total by (c ∷ cs) = by c + total by cs

abbrev pub all_commands : RedisFanout → List Call → List Command
all_commands f [] = []
all_commands f (c ∷ cs) = commands f c ++ all_commands f cs

-- The share of each call, whatever the call.
record Share (cs : List Command) (c : Call) : Type 0 where
  to_served : gains Keys.titan_served cs ≡ some 0
  to_hop1 : gains Keys.titan_hop1_served cs ≡ some (hop1_rows c)
  to_frames : gains Keys.titan_frames cs ≡ some (quotes c)
  to_decoded : gains Keys.titan_decoded cs ≡ some (quotes c)
  to_errors : gains Keys.titan_errors cs ≡ some (errors c)
  to_fell : gains Keys.titan_fell_through cs ≡ some (fell_through c)

commands-Share : (channel : Text) (c : Call) → IsRunning c → Share (commands (live channel) c) c
unfolding reset_shred_state_at_boot record_titan_decode_error heartbeat record_triton_frame
    record_shred_frame set_titan_upstream_up set_triton_upstream_up set_shred_upstream_up
    record_titan_message publish_titan_hop1 publish_titan_size_board record_shred_deshred
    publish_shred_hit publish Keys.hop1_row_key
commands-Share channel reset_titan h = absurd h
commands-Share channel (message o now) h = ground arith
commands-Share channel _ h = ground arith

pub gains-append :
    (k : Text) (cs ds : List Command) (a b : ℕ)
    → gains k cs ≡ some a
    → gains k ds ≡ some b
    → gains k (cs ++ ds) ≡ some (a + b)
gains-append k [] ds a b g h = ground (arith, g, h)
gains-append k (c ∷ cs) ds a b g h =
    let (x, y, gx, gy, sum) = plus_cases (gain k c) (gains k cs) a g in
    rw (gx, gains-append k cs ds y b gy h) (ground (arith, sum))

module _ (channel : Text) (k : Text) (by : Call → ℕ) where
  gains-all_commands :
      ((c : Call) → IsRunning c → gains k (commands (live channel) c) ≡ some (by c))
      → (cs : List Call) → All IsRunning cs
      → gains k (all_commands (live channel) cs) ≡ some (total by cs)
  gains-all_commands each [] h = refl
  gains-all_commands each (c ∷ cs) h =
      gains-append k (commands (live channel) c) (all_commands (live channel) cs) (by c)
        (total by cs) (each c h.0) (gains-all_commands each cs h.1)

pub total-le :
    {A : Type 0} (by : A → ℕ) → ((c : A) → by c ≤ 1) → (cs : List A) → total by cs ≤ length cs
total-le by one [] = omega arith
total-le by one (c ∷ cs) = omega (arith, one c, total-le by one cs)

pub total-append :
    {A : Type 0} (by : A → ℕ) (cs ds : List A) → total by (cs ++ ds) ≡ total by cs + total by ds
total-append by [] ds = omega arith
total-append by (c ∷ cs) ds = omega (arith, total-append by cs ds)

hop1_rows-le : (c : Call) → hop1_rows c ≤ 1
hop1_rows-le c = ground arith

quotes-le : (c : Call) → quotes c ≤ 1
quotes-le c = ground arith

errors-le : (c : Call) → errors c ≤ 1
errors-le c = ground arith

fell_through-le : (c : Call) → fell_through c ≤ 1
fell_through-le c = ground arith

never-le : (c : Call) → never c ≤ 1
never-le c = omega arith

total-never : (cs : List Call) → total never cs ≡ 0
total-never [] = refl
total-never (c ∷ cs) = omega (arith, total-never cs)

-- The counters that Bot 350 reads, as the number of calls of each kind.
pub record Tallied (server : Server) (s : Server.State server) (cs : List Call) : Type 0 where
  pub served : server.count Keys.titan_served s ≡ some 0
  pub hop1_served : server.count Keys.titan_hop1_served s ≡ some (total hop1_rows cs)
  pub frames : server.count Keys.titan_frames s ≡ some (total quotes cs)
  pub decoded : server.count Keys.titan_decoded s ≡ some (total quotes cs)
  pub error_count : server.count Keys.titan_errors s ≡ some (total errors cs)
  pub fell : server.count Keys.titan_fell_through s ≡ some (total fell_through cs)

module _ (server : Server) (channel : Text) (s : Server.State server) (cs : List Call) where
  pub after : Server.State server
  after =
      exec_all server (reset_titan_state_at_boot (live channel) ++ all_commands (live channel) cs) s

  counted :
      (k : Text) (by : Call → ℕ)
      → zeroes k (reset_titan_state_at_boot (live channel)) ≡ true
      → ((c : Call) → IsRunning c → gains k (commands (live channel) c) ≡ some (by c))
      → All IsRunning cs
      → ((c : Call) → by c ≤ 1)
      → length cs < 2 ^ 63
      → server.count k after ≡ some (total by cs)
  unfolding after
  counted k by reset each running one fits =
      rw
        (exec_all-append server (reset_titan_state_at_boot (live channel))
          (all_commands (live channel) cs) s)
        (count-exec_all server k (all_commands (live channel) cs) 0 (total by cs) _
            (gains-all_commands channel k by each cs running)
            (count_zeroes server k (reset_titan_state_at_boot (live channel)) s reset)
            (omega (arith, total-le by one cs))
          ∙ ap some (omega arith))

  -- With a live fan-out, after the reset at boot and any further calls but another such reset, fewer
  -- than 2^63 of them, `hop1_served` holds the number of hop-1 rows written, `frames` and `decoded`
  -- that of the quotes recorded, `errors` that of RPC and decode errors, `fell_through` that of
  -- unhandled messages, and `served` holds 0, whatever the server held before.
  pub counters_tally : All IsRunning cs → length cs < 2 ^ 63 → Tallied server after cs
  unfolding reset_titan_state_at_boot
  counters_tally running fits = record {
    served =
        counted Keys.titan_served never refl (λ c h. (commands-Share channel c h).to_served) running
          never-le fits
        ∙ ap some (total-never cs);
    hop1_served =
        counted Keys.titan_hop1_served hop1_rows refl (λ c h. (commands-Share channel c h).to_hop1)
          running hop1_rows-le fits;
    frames =
        counted Keys.titan_frames quotes refl (λ c h. (commands-Share channel c h).to_frames)
          running quotes-le fits;
    decoded =
        counted Keys.titan_decoded quotes refl (λ c h. (commands-Share channel c h).to_decoded)
          running quotes-le fits;
    error_count =
        counted Keys.titan_errors errors refl (λ c h. (commands-Share channel c h).to_errors)
          running errors-le fits;
    fell =
        counted Keys.titan_fell_through fell_through refl
          (λ c h. (commands-Share channel c h).to_fell) running fell_through-le fits;
  }
