-- ===== src/Titan/Sizes/Order.antt =====
-- The list of hunt sizes is in strict order, and holds the numbers that were asked for.
use feed_mux.Prelude.{
  ℕ, ◌≤◌, ◌<◌, ◌≡◌, inl, inr, refl, ap, ◌∙◌, arith, List, [], ◌∷◌, Bool, true, false, ◌||◌, ◌&&◌,
  Option, none, some, leb, ltb, ◌==◌, Text, is_empty, filter, any, Bool-cases, Option-cases,
}
use feed_mux.Prelude.Words.{trim, split, parse_unsigned, u64_limit}
use feed_mux.Titan.Sizes.{
  default_hunt_sizes_lamports, insert_sorted, sort, dedup, parsed_sizes, positive_sizes,
  parse_hunt_sizes, skip_head,
}

-- Every number is at least `n`.
abbrev AtLeast : ℕ → List ℕ → Type 0
AtLeast n [] = Unit
AtLeast n (m ∷ ms) = (n ≤ m) × AtLeast n ms

abbrev IsSorted : List ℕ → Type 0
IsSorted [] = Unit
IsSorted (n ∷ ns) = AtLeast n ns × IsSorted ns

-- Each number is below the next.
abbrev pub IsIncreasing : List ℕ → Type 0
IsIncreasing [] = Unit
IsIncreasing (n ∷ []) = Unit
IsIncreasing (n ∷ m ∷ ms) = (n < m) × IsIncreasing (m ∷ ms)

abbrev pub mem : ℕ → List ℕ → Bool
mem n [] = false
mem n (m ∷ ms) = (n == m) || mem n ms

AtLeast-weaken : (a b : ℕ) (ns : List ℕ) → a ≤ b → AtLeast b ns → AtLeast a ns
AtLeast-weaken a b [] h k = ground arith
AtLeast-weaken a b (n ∷ ns) h k = (omega arith, AtLeast-weaken a b ns h k.1)

AtLeast-insert_sorted :
    (a n : ℕ) (ns : List ℕ) → a ≤ n → AtLeast a ns → AtLeast a (insert_sorted n ns)
unfolding insert_sorted
AtLeast-insert_sorted a n [] h k = (h, ground arith)
AtLeast-insert_sorted a n (m ∷ ms) h k = elim (Bool-cases (leb n m)) [
  | inl p ↦ rw p (h, k)
  | inr p ↦ rw p (k.0, AtLeast-insert_sorted a n ms h k.1)
]

insert_sorted-IsSorted : (n : ℕ) (ns : List ℕ) → IsSorted ns → IsSorted (insert_sorted n ns)
unfolding insert_sorted
insert_sorted-IsSorted n [] k = ground arith
insert_sorted-IsSorted n (m ∷ ms) k = elim (Bool-cases (leb n m)) [
  | inl p ↦ rw p ((ground (arith, p), AtLeast-weaken n m ms (ground (arith, p)) k.0), k)
  | inr p ↦
      rw p (AtLeast-insert_sorted m n ms (ground (arith, p)) k.0, insert_sorted-IsSorted n ms k.1)
]

sort-IsSorted : (ns : List ℕ) → IsSorted (sort ns)
unfolding sort
sort-IsSorted [] = ground arith
sort-IsSorted (n ∷ ns) = insert_sorted-IsSorted n (sort ns) (sort-IsSorted ns)

AtLeast-skip_head : (a n : ℕ) (ns : List ℕ) → a ≤ n → AtLeast a ns → AtLeast a (skip_head n ns)
AtLeast-skip_head a n [] h k = (h, ground arith)
AtLeast-skip_head a n (m ∷ ms) h k = elim (Bool-cases (n == m)) [
  | inl p ↦ rw p k
  | inr p ↦ rw p (h, k)
]

AtLeast-dedup : (a : ℕ) (ns : List ℕ) → AtLeast a ns → AtLeast a (dedup ns)
unfolding dedup
AtLeast-dedup a [] h = h
AtLeast-dedup a (n ∷ ns) h = AtLeast-skip_head a n (dedup ns) h.0 (AtLeast-dedup a ns h.1)

skip_head-IsIncreasing :
    (n : ℕ) (ns : List ℕ) → AtLeast n ns → IsIncreasing ns → IsIncreasing (skip_head n ns)
skip_head-IsIncreasing n [] h k = ground arith
skip_head-IsIncreasing n (m ∷ ms) h k = elim (Bool-cases (n == m)) [
  | inl p ↦ rw p k
  | inr p ↦ rw p (ground (arith, h.0, p), k)
]

dedup-IsIncreasing : (ns : List ℕ) → IsSorted ns → IsIncreasing (dedup ns)
unfolding dedup
dedup-IsIncreasing [] h = ground arith
dedup-IsIncreasing (n ∷ ns) h =
    skip_head-IsIncreasing n (dedup ns) (AtLeast-dedup n ns h.0) (dedup-IsIncreasing ns h.1)

mem-insert_sorted : (a n : ℕ) (ns : List ℕ) → mem a (insert_sorted n ns) ≡ ((a == n) || mem a ns)
unfolding insert_sorted
mem-insert_sorted a n [] = refl
mem-insert_sorted a n (m ∷ ms) = ground (arith, mem-insert_sorted a n ms)

mem-sort : (a : ℕ) (ns : List ℕ) → mem a (sort ns) ≡ mem a ns
unfolding sort
mem-sort a [] = refl
mem-sort a (n ∷ ns) = ground (arith, mem-insert_sorted a n (sort ns), mem-sort a ns)

mem-skip_head : (a n : ℕ) (ns : List ℕ) → mem a (skip_head n ns) ≡ ((a == n) || mem a ns)
mem-skip_head a n [] = refl
mem-skip_head a n (m ∷ ms) = ground arith

mem-dedup : (a : ℕ) (ns : List ℕ) → mem a (dedup ns) ≡ mem a ns
unfolding dedup
mem-dedup a [] = refl
mem-dedup a (n ∷ ns) = ground (arith, mem-skip_head a n (dedup ns), mem-dedup a ns)

mem-filter : (a : ℕ) (ns : List ℕ) → mem a (filter (λ n. ltb 0 n) ns) ≡ (ltb 0 a && mem a ns)
mem-filter a [] = ground arith
mem-filter a (n ∷ ns) = ground (arith, mem-filter a ns)

-- Some part of the text, trimmed, is the number.
abbrev pub is_part : ℕ → Text → Bool
is_part a part = elim (parse_unsigned u64_limit (trim part)) [ none ↦ false | some n ↦ a == n ]

mem-parsed_sizes : (a : ℕ) (parts : List Text) → mem a (parsed_sizes parts) ≡ any (is_part a) parts
unfolding parsed_sizes
mem-parsed_sizes a [] = refl
mem-parsed_sizes a (part ∷ parts) = elim (Option-cases (parse_unsigned u64_limit (trim part))) [
  | inl p ↦ rw (p, mem, is_part) (mem-parsed_sizes a parts)
  | inr (n, p) ↦ rw (p, mem, is_part) (ap (λ b. (a == n) || b) (mem-parsed_sizes a parts))
]

-- What the text asks for: the positive numbers among its parts.
abbrev pub asked : Text → ℕ → Bool
asked raw a = ltb 0 a && any (is_part a) (split b',' (trim raw))

mem-sizes : (raw : Text) (a : ℕ) → mem a (dedup (sort (positive_sizes (trim raw)))) ≡ asked raw a
unfolding positive_sizes
mem-sizes raw a =
    let ps = parsed_sizes (split b',' (trim raw)) in
    mem-dedup a (sort (filter (λ n. ltb 0 n) ps))
    ∙ mem-sort a (filter (λ n. ltb 0 n) ps)
    ∙ mem-filter a ps
    ∙ ap (λ b. ltb 0 a && b) (mem-parsed_sizes a (split b',' (trim raw)))

is_empty-mem : (ns : List ℕ) (a : ℕ) → mem a ns ≡ true → is_empty ns ≡ false
is_empty-mem [] a h = ground (arith, h)
is_empty-mem (n ∷ ns) a h = refl

-- The hunt sizes are in strict increasing order whatever the setting holds, so none is listed twice.
pub parse_hunt_sizes-IsIncreasing : (raw : Option Text) → IsIncreasing (parse_hunt_sizes raw)
unfolding parse_hunt_sizes default_hunt_sizes_lamports
parse_hunt_sizes-IsIncreasing none = omega arith
parse_hunt_sizes-IsIncreasing (some raw) =
    let ns = positive_sizes (trim raw) in
    elim (Bool-cases (is_empty (trim raw))) [
      | inl p ↦ rw p (omega arith)
      | inr p ↦ elim (Bool-cases (is_empty (dedup (sort ns)))) [
        | inl q ↦ rw (p, q) (omega arith)
        | inr q ↦ rw (p, q) (dedup-IsIncreasing (sort ns) (sort-IsSorted ns))
      ]
    ]

-- Where a setting asks for at least one size, the hunt sizes are exactly the positive numbers below
-- 2^64 among its parts at commas, each trimmed.
pub mem-parse_hunt_sizes :
    (raw : Text) (a b : ℕ)
    → is_empty (trim raw) ≡ false
    → asked raw b ≡ true
    → mem a (parse_hunt_sizes (some raw)) ≡ asked raw a
unfolding parse_hunt_sizes
mem-parse_hunt_sizes raw a b p h =
    let ns = positive_sizes (trim raw) in
    rw (p, is_empty-mem (dedup (sort ns)) b (mem-sizes raw b ∙ h)) (mem-sizes raw a)
