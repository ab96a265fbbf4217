-- ===== src/Shred/Reassembly/Assembly.antt =====
-- The bytes of an FEC set told from its shreds alone: index by index, the payload of the shred that
-- arrived last with that index. The map of the buffer gives the same.
use feed_mux.Prelude.{
  ℕ, zero, suc, ◌≤◌, ◌<◌, ◌≡◌, refl, sym, ap, ap₂, ◌∙◌, arith, List, [], ◌∷◌, ◌++◌, map, none, max,
  unwrap_or, append-nil, append_assoc, ◌==◌, if◌then◌else◌, Bool-cases, inl, inr, ltb, false, true,
}
use feed_mux.Prelude.TreeMap.{Map, nat_key, same, lookup, insert, lookup-insert, values}
use feed_mux.Prelude.TreeMap.Sorted.{IsSorted, Above, insert-IsSorted}
use feed_mux.Shred.Parse.{ParsedDataShred}
use feed_mux.Shred.Reassembly.{concat}
use feed_mux.Shred.Reassembly.Order.{gather}
use feed_mux.Shred.Reassembly.Order.Batch.{payload_of}

-- The payloads one behind the other.
abbrev pub joined : List ParsedDataShred → List ℕ
joined [] = []
joined (s ∷ ss) = s.payload ++ joined ss

pub concat-joined : (ss : List ParsedDataShred) → concat (map payload_of ss) ≡ joined ss
unfolding concat
concat-joined [] = refl
concat-joined (s ∷ ss) = ap (λ xs. s.payload ++ xs) (concat-joined ss)

-- The payload of an index: that of the last shred with it.
abbrev pub payload_at : ℕ → List ParsedDataShred → List ℕ → List ℕ
payload_at i [] before = before
payload_at i (s ∷ ss) before = payload_at i ss (if i == s.index then s.payload else before)

-- The payloads of the indices below `n`, in their order.
abbrev pub payloads_below : ℕ → List ParsedDataShred → List ℕ
payloads_below zero ss = []
payloads_below (suc n) ss = payloads_below n ss ++ payload_at n ss []

-- A number above all indices.
abbrev pub index_limit : List ParsedDataShred → ℕ
index_limit [] = 0
index_limit (s ∷ ss) = max (suc s.index) (index_limit ss)

abbrev pub assembled : List ParsedDataShred → List ℕ
assembled ss = payloads_below (index_limit ss) ss

-- The same of a map.
abbrev below : ℕ → Map ℕ (List ℕ) → List ℕ
below zero m = []
below (suc n) m = below n m ++ unwrap_or (lookup n m) []

lookup-gather :
    (i : ℕ) (ss : List ParsedDataShred) (m : Map ℕ (List ℕ))
    → unwrap_or (lookup i (gather m ss)) [] ≡ payload_at i ss (unwrap_or (lookup i m) [])
lookup-gather i [] m = refl
lookup-gather i (s ∷ ss) m =
    lookup-gather i ss (insert s.index s.payload m)
    ∙ ap (payload_at i ss) (rw (lookup-insert s.index i s.payload m) (ground arith))

below-gather : (n : ℕ) (ss : List ParsedDataShred) → below n (gather [] ss) ≡ payloads_below n ss
unfolding lookup
below-gather zero ss = refl
below-gather (suc n) ss = ap₂ (λ xs ys. xs ++ ys) (below-gather n ss) (lookup-gather n ss [])

-- All keys lie below a number.
abbrev Under : ℕ → Map ℕ (List ℕ) → Type 0
Under n [] = Unit
Under n ((k, v) ∷ m) = (k < n) × Under n m

insert-Under :
    (n k : ℕ) (v : List ℕ) (m : Map ℕ (List ℕ)) → k < n → Under n m → Under n (insert k v m)
unfolding insert
insert-Under n k v [] h u = (h, tt)
insert-Under n k v ((j, w) ∷ m) h u = ground (arith, insert-Under n k v m h u.1)

gather-Under :
    (n : ℕ) (ss : List ParsedDataShred) (m : Map ℕ (List ℕ))
    → index_limit ss ≤ n
    → Under n m
    → Under n (gather m ss)
gather-Under n [] m h u = u
gather-Under n (s ∷ ss) m h u =
    gather-Under n ss (insert s.index s.payload m) (omega (arith, h))
      (insert-Under n s.index s.payload m (omega (arith, h)) u)

gather-IsSorted :
    (ss : List ParsedDataShred) (m : Map ℕ (List ℕ)) → IsSorted m → IsSorted (gather m ss)
gather-IsSorted [] m h = h
gather-IsSorted (s ∷ ss) m h =
    gather-IsSorted ss (insert s.index s.payload m) (insert-IsSorted s.index s.payload m h)

lookup_low : (i k : ℕ) (m : Map ℕ (List ℕ)) → i ≤ k → Above k m → lookup i m ≡ none
unfolding lookup
lookup_low i k [] h a = refl
lookup_low i k ((j, w) ∷ m) h a = ground (arith, lookup_low i k m h a.1)

below_low : (n k : ℕ) (m : Map ℕ (List ℕ)) → n ≤ suc k → Above k m → below n m ≡ []
below_low zero k m h a = refl
below_low (suc n) k m h a =
    rw (below_low n k m (omega (arith, h)) a, lookup_low n k m (omega (arith, h)) a) refl

below_short :
    (n k : ℕ) (v : List ℕ) (m : Map ℕ (List ℕ)) → n ≤ k → Above k m → below n ((k, v) ∷ m) ≡ []
unfolding lookup
below_short zero k v m h a = refl
below_short (suc n) k v m h a =
    let apart : same n k ≡ false = ground (arith, h) in
    rw (below_short n k v m (omega (arith, h)) a, apart, lookup_low n k m (omega (arith, h)) a) refl

-- A key that stands before the others of a map.
below_first :
    (n k : ℕ) (v : List ℕ) (m : Map ℕ (List ℕ))
    → k < n
    → Above k m
    → below n ((k, v) ∷ m) ≡ v ++ below n m
unfolding lookup
below_first zero k v m h a = absurd (omega (arith, h))
below_first (suc n) k v m h a = elim (Bool-cases (ltb k n)) [
  | inl less ↦
      let apart : same n k ≡ false = ground (arith, less) in
      rw (below_first n k v m (ground (arith, less)) a, apart)
        (append_assoc v (below n m) (unwrap_or (lookup n m) []))
  | inr more ↦
      let here : same n k ≡ true = ground (arith, more, h) in
      rw
        (
          below_short n k v m (ground (arith, more)) a,
          here,
          below_low n k m (omega (arith, ltb_ge k n more)) a,
          lookup_low n k m (ltb_ge k n more) a,
        )
        (sym (append-nil v))
]
  where
    ltb_ge : (k n : ℕ) → ltb k n ≡ false → n ≤ k
    ltb_ge k n h = ground arith

below-concat : (n : ℕ) (m : Map ℕ (List ℕ)) → IsSorted m → Under n m → below n m ≡ concat (values m)
unfolding concat
below-concat n [] h u = below_low n n [] (omega arith) tt
below-concat n ((k, v) ∷ m) h u =
    below_first n k v m u.0 h.0 ∙ ap (λ xs. v ++ xs) (below-concat n m h.1 u.1)

-- What the buffer gives out of the shreds that it has taken in.
pub concat-gather : (ss : List ParsedDataShred) → concat (values (gather [] ss)) ≡ assembled ss
concat-gather ss =
    sym (
      below-concat (index_limit ss) (gather [] ss) (gather-IsSorted ss [] tt)
        (gather-Under (index_limit ss) ss [] (omega arith) tt))
    ∙ below-gather (index_limit ss) ss
