-- ===== src/Upstream/TritonShred/InStep.antt =====
-- A step that adds the same to the counters of the process and to those in Redis.
use feed_mux.Prelude.{ℕ, ◌+◌, ◌%◌, ◌^◌, ◌≤◌, ◌<◌, ◌≡◌, arith, List, ◌++◌, some, Text}
use feed_mux.Fanout.{Command}
use feed_mux.Fanout.Keys
use feed_mux.Fanout.Counters.{Server, exec_all, exec_all-append, gains, count-exec_all}
use feed_mux.Shred.Reassembly.{ShredReassembler}
use feed_mux.Upstream.TritonShred.{ShredStats, UdpState}

module _ (server : Server) (start : Server.State server) where
  open server use {count}

  abbrev pub Holds : Text → List Command → ℕ → Type 0
  Holds key cs n = count key (exec_all server cs start) ≡ some n

  -- The three counters in Redis are those of the process, and none is above the budget.
  pub record InStep (budget : ℕ) (s : UdpState) : Type 0 where
    pub same_shreds : Holds Keys.shred_shreds s.redis s.stats.shreds
    pub same_txs : Holds Keys.shred_txs_deshredded s.redis s.stats.txs_deshredded
    pub same_hits : Holds Keys.shred_vault_hits s.redis s.stats.vault_hits
    pub shreds_le : s.stats.shreds ≤ budget
    pub txs_le : s.stats.txs_deshredded ≤ budget
    pub hits_le : s.stats.vault_hits ≤ budget

  Holds-append :
      (key : Text) (cs ds : List Command) (n d m : ℕ)
      → Holds key cs n
      → gains key ds ≡ some d
      → n + d < 2 ^ 63
      → m ≡ (n + d) % 2 ^ 64
      → Holds key (cs ++ ds) m
  Holds-append key cs ds n d m h g fits e =
      let exact : m ≡ n + d = omega (arith, e) in
      rw (exec_all-append server cs ds start, exact)
        (count-exec_all server key ds n d (exec_all server cs start) g h fits)

  -- A step that adds the same to both sides.
  pub step-InStep :
      (budget cost a b c : ℕ) (cs : List Command) (s : UdpState) (stats : ShredStats)
      (r : ShredReassembler)
      → (gains Keys.shred_shreds cs ≡ some a)
        × (gains Keys.shred_txs_deshredded cs ≡ some b)
        × (gains Keys.shred_vault_hits cs ≡ some c)
      → (a ≤ cost) × (b ≤ cost) × (c ≤ cost)
      → (stats.shreds ≡ (s.stats.shreds + a) % 2 ^ 64)
        × (stats.txs_deshredded ≡ (s.stats.txs_deshredded + b) % 2 ^ 64)
        × (stats.vault_hits ≡ (s.stats.vault_hits + c) % 2 ^ 64)
      → budget + cost < 2 ^ 63
      → InStep budget s
      → InStep (budget + cost) (record { stats = stats; reassembler = r; redis = s.redis ++ cs })
  step-InStep budget cost a b c cs s stats r (ga, gb, gc) (la, lb, lc) (ea, eb, ec) fits i =
      record {
        same_shreds =
            Holds-append Keys.shred_shreds s.redis cs s.stats.shreds a stats.shreds i.same_shreds ga
              (omega (arith, i.shreds_le)) ea;
        same_txs =
            Holds-append Keys.shred_txs_deshredded s.redis cs s.stats.txs_deshredded b
              stats.txs_deshredded i.same_txs gb (omega (arith, i.txs_le)) eb;
        same_hits =
            Holds-append Keys.shred_vault_hits s.redis cs s.stats.vault_hits c stats.vault_hits
              i.same_hits gc (omega (arith, i.hits_le)) ec;
        shreds_le = omega (arith, i.shreds_le);
        txs_le = omega (arith, i.txs_le);
        hits_le = omega (arith, i.hits_le);
      }
