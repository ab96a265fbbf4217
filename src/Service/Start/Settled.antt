-- ===== src/Service/Start/Settled.antt =====
-- A counter in Redis that one task writes, while the commands of other tasks come between its own.
use feed_mux.Prelude.{
  ℕ, ◌+◌, ◌^◌, ◌<◌, ◌≤◌, ◌≡◌, refl, sym, subst, ap, ◌∙◌, arith, List, ◌++◌, Bool, true, false, some,
  Text, text_eq, text_eq_iff, All, filter, length, Bool-cases, inl, inr,
}
use feed_mux.Fanout.{Command, set, set_ex, incr, del, publish_to}
use feed_mux.Fanout.Counters.{Server, key_is, gain, gains, plus_cases, exec_all, count-exec_all}
use feed_mux.Fanout.Arrivals.{
  AddsOne, gain_other, gains-append_plus, gains-filter, gains-le, All-filter, length-filter,
}
use feed_mux.Service.Start.Ownership.Alone.{writes}

writes-key_is :
    (p : Text → Bool) (k : Text) (c : Command)
    → p k ≡ true
    → writes p c ≡ false
    → key_is k c ≡ false
writes-key_is p k c mine h = not_key c h
  where
    other : (j : Text) → p j ≡ false → text_eq k j ≡ false
    other j out = elim (Bool-cases (text_eq k j)) [
      | inl e ↦ absurd (ground (arith, sym mine ∙ ap p ((text_eq_iff k j).0 e) ∙ out))
      | inr e ↦ e
    ]

    not_key : (c : Command) → writes p c ≡ false → key_is k c ≡ false
    not_key (set j v) h = other j h
    not_key (set_ex j v ttl) h = other j h
    not_key (incr j n) h = other j h
    not_key (del j) h = other j h
    not_key (publish_to channel v) h = refl

-- What the key holds and what is still to come make up the total.
pub record Settled (server : Server) (s : Server.State server) (k : Text) (later : List Command)
    (sum : ℕ) : Type 0 where
  pub arrived : ℕ
  pub underway : ℕ
  pub shown : server.count k s ≡ some arrived
  pub left : gains k later ≡ some underway
  pub whole : arrived + underway ≡ sum

pub settle :
    (server : Server) (s : Server.State server) (p : Text → Bool) (k : Text)
    (log own later : List Command) (sum : ℕ)
    → p k ≡ true
    → filter (writes p) log ≡ filter (writes p) own
    → All (AddsOne k) own
    → gains k (own ++ later) ≡ some sum
    → server.count k s ≡ some 0
    → length log < 2 ^ 63
    → Settled server (exec_all server log s) k later sum
settle server s p k log own later sum mine same ones gain_all zero fits =
    let (n, m, gn, gm, whole) =
      plus_cases (gains k own) (gains k later) sum
        (sym (gains-append_plus k own later) ∙ gain_all) in
    let spared : (c : Command) → writes p c ≡ false → gain k c ≡ some 0 =
      λ c h. gain_other k c (writes-key_is p k c mine h) in
    let seen : gains k (filter (writes p) log) ≡ some n =
      ap (gains k) same ∙ gains-filter k (writes p) own spared ∙ gn in
    let few : n ≤ length log = omega (
      arith,
      length-filter (writes p) log,
      gains-le k (filter (writes p) log) n
          (subst (All (AddsOne k)) (sym same) (All-filter (AddsOne k) (writes p) own ones)) seen,
    ) in
    record {
      arrived = n;
      underway = m;
      shown =
          count-exec_all server k log 0 n s (sym (gains-filter k (writes p) log spared) ∙ seen) zero
            (omega (arith, few))
          ∙ ap some (omega arith);
      left = gm;
      whole = whole;
    }
