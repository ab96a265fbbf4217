-- ===== src/Fanout/Arrivals.antt =====
-- What a key gains from a part of the commands.
use feed_mux.Prelude.{
  ℕ, ◌≤◌, ◌≡◌, refl, sym, ap, ◌∙◌, ◌⊎◌, arith, List, [], ◌∷◌, ◌++◌, Bool, false, Option, none, some,
  Text, All, filter, length, Bool-cases, inl, inr, pos, negsuc,
}
use feed_mux.Fanout.{Command, set, set_ex, incr, del, publish_to}
use feed_mux.Fanout.Counters.{key_is, gain, gains, plus, plus_cases}

pub gain_other : (k : Text) (c : Command) → key_is k c ≡ false → gain k c ≡ some 0
gain_other k (set j v) h = ground (arith, h)
gain_other k (set_ex j v ttl) h = ground (arith, h)
gain_other k (incr j (pos d)) h = ground (arith, h)
gain_other k (incr j (negsuc d)) h = ground (arith, h)
gain_other k (del j) h = ground (arith, h)
gain_other k (publish_to channel v) h = refl

plus_zero : (o : Option ℕ) → plus (some 0) o ≡ o
plus_zero none = refl
plus_zero (some n) = ap some (omega arith)

plus_assoc : (o p q : Option ℕ) → plus (plus o p) q ≡ plus o (plus p q)
plus_assoc none p q = refl
plus_assoc (some a) none q = refl
plus_assoc (some a) (some b) none = refl
plus_assoc (some a) (some b) (some c) = ap some (omega arith)

pub gains-append_plus :
    (k : Text) (cs ds : List Command) → gains k (cs ++ ds) ≡ plus (gains k cs) (gains k ds)
gains-append_plus k [] ds = sym (plus_zero (gains k ds))
gains-append_plus k (c ∷ cs) ds =
    ap (plus (gain k c)) (gains-append_plus k cs ds)
    ∙ sym (plus_assoc (gain k c) (gains k cs) (gains k ds))

-- The commands that a test drops may be left out, where they do not concern the key.
pub gains-filter :
    (k : Text) (q : Command → Bool) (cs : List Command)
    → ((c : Command) → q c ≡ false → gain k c ≡ some 0)
    → gains k (filter q cs) ≡ gains k cs
gains-filter k q [] h = refl
gains-filter k q (c ∷ cs) h = elim (Bool-cases (q c)) [
  | inl kept ↦ rw kept (ap (plus (gain k c)) (gains-filter k q cs h))
  | inr dropped ↦ rw (dropped, h c dropped) (gains-filter k q cs h ∙ sym (plus_zero (gains k cs)))
]

-- A command that leaves the key alone or adds 1 to it.
abbrev pub AddsOne : Text → Command → Type 0
AddsOne k c = (gain k c ≡ some 0) ⊎ (gain k c ≡ some 1)

pub gains-le :
    (k : Text) (cs : List Command) (n : ℕ)
    → All (AddsOne k) cs
    → gains k cs ≡ some n
    → n ≤ length cs
gains-le k [] n ones h = ground (arith, h)
gains-le k (c ∷ cs) n ones h =
    let (a, b, ga, gb, sum) = plus_cases (gain k c) (gains k cs) n h in
    ground (arith, gains-le k cs b ones.1 gb, ga, sum, ones.0)

pub All-filter :
    (P : Command → Type 0) (q : Command → Bool) (cs : List Command) → All P cs → All P (filter q cs)
All-filter P q [] h = tt
All-filter P q (c ∷ cs) h = ground (arith, h.0, All-filter P q cs h.1)

pub length-filter : (q : Command → Bool) (cs : List Command) → length (filter q cs) ≤ length cs
length-filter q [] = omega arith
length-filter q (c ∷ cs) = ground (arith, length-filter q cs)
