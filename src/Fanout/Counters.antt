-- ===== src/Fanout/Counters.antt =====
-- The Titan counters in Redis against the calls that were made. The server is a parameter: its
-- states, what a command does to one, and the number that a key holds, with the documented effect of
-- SET, INCRBY and the rest on that number.
use feed_mux.Prelude.{
  ℕ, ◌+◌, ◌^◌, ◌<◌, ◌≡◌, refl, ◌∙◌, ◌⊎◌, inl, inr, List, [], ◌∷◌, ◌++◌, Bool, true, false, not,
  ◌&&◌, ◌||◌, Option, none, some, arith, Text, codes, text_eq, if◌then◌else◌, pos, negsuc,
  Bool-cases, text_eq_iff,
}
use feed_mux.Fanout.{Command, set, set_ex, incr, del, publish_to}

abbrev pub key_is : Text → Command → Bool
key_is k (set j v) = text_eq k j
key_is k (set_ex j v ttl) = text_eq k j
key_is k (incr j n) = text_eq k j
key_is k (del j) = text_eq k j
key_is k (publish_to channel v) = false

pub record Server : Type 1 where
  pub State : Type 0
  pub exec : Command → State → State
  -- the value at a key, read as a number that is not negative
  pub count : Text → State → Option ℕ
  pub count-set_zero : (k : Text) (s : State) → count k (exec (set k (codes "0")) s) ≡ some 0
  pub count-incr :
      (k : Text) (n d : ℕ) (s : State)
      → count k s ≡ some n
      → n + d < 2 ^ 63
      → count k (exec (incr k (pos d)) s) ≡ some (n + d)
  pub count_other :
      (k : Text) (c : Command) (s : State) → key_is k c ≡ false → count k (exec c s) ≡ count k s

-- What the commands add to the number at a key; none if one of them writes the key otherwise.
abbrev pub gain : Text → Command → Option ℕ
gain k (set j v) = if text_eq k j then none else some 0
gain k (set_ex j v ttl) = if text_eq k j then none else some 0
gain k (incr j (pos d)) = if text_eq k j then some d else some 0
gain k (incr j (negsuc d)) = if text_eq k j then none else some 0
gain k (del j) = if text_eq k j then none else some 0
gain k (publish_to channel v) = some 0

abbrev pub plus : Option ℕ → Option ℕ → Option ℕ
plus (some a) (some b) = some (a + b)
plus _ _ = none

pub plus_cases :
    (o p : Option ℕ) (d : ℕ)
    → plus o p ≡ some d
    → (a : ℕ) × (b : ℕ) × (o ≡ some a) × (p ≡ some b) × (a + b ≡ d)
plus_cases (some a) (some b) d h = (a, b, refl, refl, ground arith)
plus_cases (some a) none d h = absurd (ground arith)
plus_cases none p d h = absurd (ground arith)

abbrev pub gains : Text → List Command → Option ℕ
gains k [] = some 0
gains k (c ∷ cs) = plus (gain k c) (gains k cs)

-- A command that adds to a key is an increment of it, and any other leaves it alone.
abbrev GainCase : Text → Command → ℕ → Type 0
GainCase k c d = ((key_is k c ≡ false) × (d ≡ 0)) ⊎ (c ≡ incr k (pos d))

spared : (b : Bool) (d : ℕ) → (if b then none else some 0) ≡ some d → (b ≡ false) × (d ≡ 0)
spared true d h = ground arith
spared false d h = ground arith

gain_cases : (k : Text) (c : Command) (d : ℕ) → gain k c ≡ some d → GainCase k c d
gain_cases k (set j v) d h = inl (spared (text_eq k j) d h)
gain_cases k (set_ex j v ttl) d h = inl (spared (text_eq k j) d h)
gain_cases k (incr j (pos n)) d h = elim (Bool-cases (text_eq k j)) [
  | inl same ↦ inr (cc ((text_eq_iff k j).0 same, rw same at h))
  | inr other ↦ inl (other, ground (arith, rw other at h))
]
gain_cases k (incr j (negsuc n)) d h = inl (spared (text_eq k j) d h)
gain_cases k (del j) d h = inl (spared (text_eq k j) d h)
gain_cases k (publish_to channel v) d h = inl (refl, ground arith)

abbrev untouched : Text → List Command → Bool
untouched k [] = true
untouched k (c ∷ cs) = not (key_is k c) && untouched k cs

abbrev is_zero_set : Text → Command → Bool
is_zero_set k (set j v) = text_eq k j && text_eq v (codes "0")
is_zero_set k _ = false

-- The last command on the key sets it to "0".
abbrev pub zeroes : Text → List Command → Bool
zeroes k [] = false
zeroes k (c ∷ cs) = zeroes k cs || (is_zero_set k c && untouched k cs)

zero_set_cases : (k : Text) (c : Command) → is_zero_set k c ≡ true → c ≡ set k (codes "0")
zero_set_cases k (set j v) h = ground (arith, text_eq_iff k j, text_eq_iff v (codes "0"), h)
zero_set_cases k (set_ex j v ttl) h = ground (arith, h)
zero_set_cases k _ h = ground (arith, h)

module _ (server : Server) where
  open server use {State, exec, count, count-set_zero, count-incr, count_other}

  pub exec_all : List Command → State → State
  exec_all [] s = s
  exec_all (c ∷ cs) s = exec_all cs (exec c s)

  count-exec :
      (k : Text) (c : Command) (n d : ℕ) (s : State)
      → gain k c ≡ some d
      → count k s ≡ some n
      → n + d < 2 ^ 63
      → count k (exec c s) ≡ some (n + d)
  count-exec k c n d s g e fits = elim (gain_cases k c d g) [
    | inl (other, zero) ↦ rw (count_other k c s other, e) (ground (arith, zero))
    | inr added ↦ rw added (count-incr k n d s e fits)
  ]

  -- Through a list of commands a key goes up by what they add.
  pub count-exec_all :
      (k : Text) (cs : List Command) (n d : ℕ) (s : State)
      → gains k cs ≡ some d
      → count k s ≡ some n
      → n + d < 2 ^ 63
      → count k (exec_all cs s) ≡ some (n + d)
  unfolding exec_all
  count-exec_all k [] n d s g e fits = ground arith
  count-exec_all k (c ∷ cs) n d s g e fits =
      let (a, b, ga, gb, sum) = plus_cases (gain k c) (gains k cs) d g in
      count-exec_all k cs (n + a) b (exec c s) gb (count-exec k c n a s ga e (omega arith))
        (omega arith)
      ∙ ground (arith, sum)

  pub exec_all-append :
      (cs ds : List Command) (s : State) → exec_all (cs ++ ds) s ≡ exec_all ds (exec_all cs s)
  unfolding exec_all
  exec_all-append [] ds s = refl
  exec_all-append (c ∷ cs) ds s = exec_all-append cs ds (exec c s)

  count_untouched :
      (k : Text) (cs : List Command) (s : State)
      → untouched k cs ≡ true
      → count k (exec_all cs s) ≡ count k s
  unfolding exec_all
  count_untouched k [] s h = refl
  count_untouched k (c ∷ cs) s h =
      count_untouched k cs (exec c s) (ground (arith, h)) ∙ count_other k c s (ground (arith, h))

  -- After such a list the key holds 0, whatever it held before.
  pub count_zeroes :
      (k : Text) (cs : List Command) (s : State)
      → zeroes k cs ≡ true
      → count k (exec_all cs s) ≡ some 0
  unfolding exec_all
  count_zeroes k [] s h = absurd (ground (arith, h))
  count_zeroes k (c ∷ cs) s h = elim (Bool-cases (zeroes k cs)) [
    | inl later ↦ count_zeroes k cs (exec c s) later
    | inr now ↦
        let here : (is_zero_set k c ≡ true) × (untouched k cs ≡ true) = ground (arith, h, now) in
        count_untouched k cs (exec c s) here.1 ∙ rw (zero_set_cases k c here.0) (count-set_zero k s)
  ]
