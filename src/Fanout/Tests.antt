-- ===== src/Fanout/Tests.antt =====
-- src/redis_fanout.rs at concrete inputs, and the theorems applied.
use feed_mux.Prelude.{◌≡◌, refl, List, [], ◌∷◌, none, arith, codes, ok}
use feed_mux.Prelude.Decimal.{to_string}
use feed_mux.Fanout.{quote_published, rpc_error}
use feed_mux.Fanout.Silence.{Call, hop1, message, decode_error, beat}
use feed_mux.Fanout.Store.{store_server}
use feed_mux.Fanout.Tally.{after, Tallied, counters_tally}
use feed_mux.Fanout.Keys.{hop1_row_key}

-- The key of the source's own test.
hop1_row_key_test :
    hop1_row_key (codes "SOL-USDC") 1000000000 ≡ codes "mux:titan:hop1:SOL-USDC:1000000000"
unfolding hop1_row_key to_string
hop1_row_key_test = refl

abbrev script : List Call
script =
    hop1 (ok (codes "{}")) (codes "SOL-USDC") 250000000 2
    ∷ message quote_published 17
    ∷ decode_error
    ∷ message rpc_error 18
    ∷ beat 19
    ∷ []

counters_tally_example :
    Tallied store_server (after store_server (codes "feed:350") (λ k. none) script) script
counters_tally_example =
    counters_tally store_server (codes "feed:350") (λ k. none) script
      (tt, (tt, (tt, (tt, (tt, tt))))) (omega arith)
