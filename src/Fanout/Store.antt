-- ===== src/Fanout/Store.antt =====
-- A concrete server for the interface of Counters: one number for each key. It shows that the laws of the
-- interface can hold.
use feed_mux.Prelude.{
  ℕ, ◌+◌, ◌^◌, ◌<◌, ◌≡◌, false, Option, none, some, arith, Text, codes, text_eq, text_eq_refl,
  if◌then◌else◌, pos, negsuc,
}
use feed_mux.Fanout.{Command, set, set_ex, incr, del, publish_to}
use feed_mux.Fanout.Counters.{Server, key_is}

abbrev bump : Option ℕ → ℕ → Option ℕ
bump none d = some d
bump (some n) d = some (n + d)

abbrev store_exec : Command → (Text → Option ℕ) → Text → Option ℕ
store_exec (set k v) s j =
    if text_eq j k then (if text_eq v (codes "0") then some 0 else none) else s j
store_exec (set_ex k v ttl) s j = if text_eq j k then none else s j
store_exec (incr k (pos d)) s j = if text_eq j k then bump (s j) d else s j
store_exec (incr k (negsuc d)) s j = if text_eq j k then none else s j
store_exec (del k) s j = if text_eq j k then none else s j
store_exec (publish_to channel v) s j = s j

pub store-count_other :
    (k : Text) (c : Command) (s : Text → Option ℕ) → key_is k c ≡ false → store_exec c s k ≡ s k
store-count_other k (set j v) s h = ground (arith, h)
store-count_other k (incr j (pos d)) s h = ground (arith, h)
store-count_other k (incr j (negsuc d)) s h = ground (arith, h)
store-count_other k _ s h = ground (arith, h)

pub store-count_set_zero :
    (k : Text) (s : Text → Option ℕ) → store_exec (set k (codes "0")) s k ≡ some 0
store-count_set_zero k s = ground (arith, text_eq_refl k)

pub store-count_incr :
    (k : Text) (n d : ℕ) (s : Text → Option ℕ)
    → s k ≡ some n
    → n + d < 2 ^ 63
    → store_exec (incr k (pos d)) s k ≡ some (n + d)
store-count_incr k n d s e fits = ground (arith, text_eq_refl k, e)

abbrev pub store_server : Server
store_server = record {
  State = Text → Option ℕ;
  exec = store_exec;
  count = λ k s. s k;
  count-set_zero = store-count_set_zero;
  count-incr = store-count_incr;
  count_other = store-count_other;
}
